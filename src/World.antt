-- ===== src/World.antt =====
-- The state of a colod process with its surroundings, and the monad of its functions: `run_status rs`
-- and the other globals of src/utils/colod_service.cpp, the files, and the operating system.
pub mod Called
pub mod Filed
pub mod Keeps
pub mod Returns
use mathlib.Core.Option
use colo_manage_tools.Prelude.{
  ℕ, pos, minus_one, String, Bool, Option, none, some, ◌==◌, ◌||◌, ◌≡◌, refl, ◌⊎◌, inl, inr,
  if◌then◌else◌,
}
use colo_manage_tools.Config.{ColoStatus}
use colo_manage_tools.Platform.{Yaml, Os, ColodDomainStatus, RetVal, Request}
use colo_manage_tools.Domains
use colo_manage_tools.Domains.{Domains}

pub record World ⦃Y : Yaml⦄ ⦃O : Os⦄ : Type 0 where
  pub current_status : ColoStatus
  pub domains : Domains
  -- the address that `remote_client` was given last, and `remote_client_init`
  pub remote_address : Option (String × ℕ)
  pub remote_client_init : Bool
  pub peer_init : Bool
  pub files : String → Option Y.Text
  pub os : O.State

-- `thrown` is a C++ exception that nothing catches: the process ends in the state that it had.
pub data Outcome ⦃Y : Yaml⦄ ⦃O : Os⦄ (A : Type 0) : Type 0 where
  returned : A → World → Outcome A
  thrown : World → Outcome A

pub Outcome-cases :
    ⦃Y : Yaml⦄ ⦃O : Os⦄ {A : Type 0} (o : Outcome A)
    → ((a : A) × (w : World) × (o ≡ returned a w)) ⊎ ((w : World) × (o ≡ thrown w))
Outcome-cases (returned a w) = inl (a, w, refl)
Outcome-cases (thrown w) = inr (w, refl)

module _ ⦃Y : Yaml⦄ ⦃O : Os⦄ where
  abbrev pub M : Type 0 → Type 0
  M A = World → Outcome A

  unfoldable pub pure : {A : Type 0} → A → M A
  pure a w = returned a w

  unfoldable pub lift : {A : Type 0} → Option A → M A
  lift none w = thrown w
  lift (some a) w = returned a w

  unfoldable pub gets : {A : Type 0} → (World → A) → M A
  gets f w = returned (f w) w

  unfoldable pub modify : (World → World) → M (Unit {0})
  modify f w = returned tt (f w)

  -- A system call.
  unfoldable pub sys : {A : Type 0} → (O.State → A × O.State) → M A
  sys f w = let (a, s) = f w.os in returned a (record w { os = s })

  infixl 5 ◌>>=◌ ◌>>◌
  -- Opening this opens the actions above too.
  unfoldable pub ◌>>=◌ : {A B : Type 0} → M A → (A → M B) → M B
  unfolding pure lift gets modify sys
  ◌>>=◌ m f w = elim (m w) [ returned a w' ↦ f a w' | thrown w' ↦ thrown w' ]

  abbrev pub ◌>>◌ : {B : Type 0} → M (Unit {0}) → M B → M B
  m >> k = m >>= λ _. k

  -- What the code does in two ways, by whether there is a value.
  abbrev pub on_option : {A B : Type 0} → Option A → M B → (A → M B) → M B
  on_option none m k = m
  on_option (some a) m k = k a

  -- `return { code, msg }` of a handler
  abbrev pub fail : String → M RetVal
  fail msg = pure (record { code = minus_one; msg = msg })

  abbrev pub succeed : String → M RetVal
  succeed msg = pure (record { code = pos 0; msg = msg })

  -- rs.domains[k], read: the key is there afterwards.
  unfoldable pub domain_at : String → M ColodDomainStatus
  domain_at k w =
      let d = Domains.get k w.domains in
      returned d (record w { domains = Domains.insert k d w.domains })

  -- rs.domains[k] with some fields given anew
  unfoldable pub set_domain : String → (ColodDomainStatus → ColodDomainStatus) → M (Unit {0})
  set_domain k f w =
      returned tt (record w { domains = Domains.insert k (f (Domains.get k w.domains)) w.domains })

  -- rs.domains.erase(k)
  unfoldable pub erase_domain : String → M (Unit {0})
  unfolding modify
  erase_domain k = modify λ w. record w { domains = Domains.erase k w.domains }

  -- YAML::LoadFile(path); it throws on a file that is not there.
  unfoldable pub load_file : String → M Y.Node
  unfolding lift
  load_file path w = lift (Option.bind (w.files path) Y.load) w

  -- Two paths of one file; a path names the file that it names.
  abbrev pub is_same : String → String → Bool
  is_same path p = path == p || O.same_file path p

  -- ofstream fout(path); fout << node; fout.close(), on a path that can be opened: the save file, which
  -- was read before each write, by a process that has become root.
  unfoldable pub write_file : String → Y.Node → M (Unit {0})
  unfolding modify
  write_file path n =
      modify λ w. record w { files = λ p. if is_same path p then some (Y.emit n) else w.files p }

  -- ofstream fout(path), which leaves an empty file where the process ends before it writes
  unfoldable pub truncate : String → M (Unit {0})
  unfolding modify
  truncate path =
      modify λ w. record w { files = λ p. if is_same path p then some Y.blank else w.files p }

  -- set_remote_client: as_client throws on an address that zmq does not take.
  unfoldable pub set_remote_client : String → ℕ → M (Unit {0})
  set_remote_client ip port w =
      if O.is_endpoint w.os ip port
      then returned tt (record w { remote_address = some (ip, port) })
      else thrown w

  -- remote_client.call<colod_ret_val>(...). A client that was given no address has no socket: its
  -- call goes through a null pointer, which ends the process, as does an exception of zmq.
  unfoldable pub remote_call : Request → M (Option RetVal)
  unfolding sys
  remote_call r w = elim w.remote_address [
    | none ↦ thrown w
    | some (ip, port) ↦
        if O.call_throws w.os ip port r then thrown w else sys (λ s. O.call s ip port r) w
  ]
