-- ===== src/Daemon/Detached.antt =====
-- What the start of the daemon in src/colod.cpp does to the process.
use colo_manage_tools.Prelude.{
  ℕ, ◌<◌, ℤ, sym, ◌∙◌, ◌<>◌, List, [], ◌∷◌, ◌⊎◌, ◌≢◌, String, pos, negsuc, is_negative, is_positive,
  true, false, none, some, ◌≡◌, refl, arith, if◌then◌else◌,
}
use colo_manage_tools.Prelude.Decimal.{to_string}
use colo_manage_tools.Daemon.{Process, Answers, exited, detached, log_file, redirect, colod_daemon}

-- The log file stands behind the standard descriptors, and no other descriptor is changed, the one
-- that it was opened at included, which is closed.
redirect_lem :
    (fd : ℕ) (p : Process)
    → ((n : ℕ) → n < 3 → (redirect (pos fd) p).descriptors n ≡ some log_file)
      × ((n : ℕ) → 2 < n → n ≢ fd → (redirect (pos fd) p).descriptors n ≡ p.descriptors n)
      × (2 < fd → (redirect (pos fd) p).descriptors fd ≡ none)
unfolding redirect
redirect_lem fd p = (λ n h. ground arith, λ n h e. ground arith, λ h. ground arith)

-- A process of the daemon: what the start gave it.
pub record IsDetached (a : Answers) (p p' : Process) : Type 0 where
  pub uid : p'.uid ≡ a.getuid
  pub running : p'.running ≡ p.running
  pub leads_session : p'.leads_session ≡ true
  pub directory : p'.directory ≡ "/"
  pub mask : p'.mask ≡ 0
  pub handles_sigterm : p'.handles_sigterm ≡ true
  -- The log file stands behind the standard descriptors if it could be opened, no other descriptor
  -- is changed, and the one that the log file was opened at is closed.
  pub standard : (fd n : ℕ) → a.open_log ≡ pos fd → n < 3 → p'.descriptors n ≡ some log_file
  pub others :
      (fd n : ℕ) → a.open_log ≡ pos fd → 2 < n → n ≢ fd → p'.descriptors n ≡ p.descriptors n
  pub closed : (fd : ℕ) → a.open_log ≡ pos fd → 2 < fd → p'.descriptors fd ≡ none
  pub unopened : (n : ℕ) → is_negative a.open_log ≡ true → p'.descriptors n ≡ p.descriptors n

redirect-IsDetached :
    (a : Answers) (p : Process) (o : ℤ)
    → a.open_log ≡ o
    → let p2 = record p { uid = a.getuid; leads_session = true; directory = "/"; mask = 0 } in
      let p3 = redirect o p2 in IsDetached a p (record p3 { handles_sigterm = true })
unfolding redirect
redirect-IsDetached a p (negsuc k) e = record {
  uid = refl;
  running = refl;
  leads_session = refl;
  directory = refl;
  mask = refl;
  handles_sigterm = refl;
  standard = λ fd n e' h. absurd (ground (arith, e, e'));
  others = λ fd n e' h other. refl;
  closed = λ fd e' h. absurd (ground (arith, e, e'));
  unopened = λ n h. refl;
}
redirect-IsDetached a p (pos k) e =
    let p2 = record p { uid = a.getuid; leads_session = true; directory = "/"; mask = 0 } in
    let (standard, others, closed) = redirect_lem k p2 in
    let same : (fd : ℕ) → a.open_log ≡ pos fd → fd ≡ k = λ fd e'. ground (arith, e, e') in
    record {
      uid = ground arith;
      running = ground arith;
      leads_session = ground arith;
      directory = ground arith;
      mask = ground arith;
      handles_sigterm = refl;
      standard = λ fd n e' h. standard n h;
      others = λ fd n e' h other. others n h (λ x. other (x ∙ sym (same fd e')));
      closed = λ fd e' h. rw (same fd e') (closed (rw (same fd e') at h));
      unopened = λ n h. absurd (ground (arith, e, h));
    }

-- Where fork answered 0 and setuid no error the start comes back with 0, in a process that leads a
-- session of its own in "/" with the mask 0, hands SIGTERM to the handler, and has the log file
-- behind its three standard descriptors if it could be opened, with every other descriptor as before
-- but the one that the log file was opened at, which is closed.
pub colod_daemon-IsDetached :
    (a : Answers) (p : Process)
    → a.fork ≡ pos 0
    → is_negative a.setuid ≡ false
    → (p' : Process) × (colod_daemon a p ≡ detached (pos 0) p') × IsDetached a p p'
unfolding colod_daemon
colod_daemon-IsDetached a p forked root =
    let p2 = record p { uid = a.getuid; leads_session = true; directory = "/"; mask = 0 } in
    let p3 = redirect a.open_log p2 in
    (
      record p3 { handles_sigterm = true },
      ground (arith, forked, root),
      redirect-IsDetached a p a.open_log refl,
    )

-- Where fork answered anything but 0, or setuid an error, the process ends, with the status 1 where
-- fork failed and with 0 otherwise, also where it could not become root.
pub colod_daemon-exited :
    (a : Answers) (p : Process)
    → (a.fork ≢ pos 0) ⊎ (is_negative a.setuid ≡ true)
    → (lines : List String) × (colod_daemon a p
        ≡ exited (if is_negative a.fork then 1 else 0) lines)
unfolding colod_daemon
colod_daemon-exited a p h = (
  if is_negative a.fork
      then []
      else if is_positive a.fork
      then ("colod now is running with pid = " <> to_string a.fork) ∷ []
      else "switch to root user failed, please run with sudo." ∷ [],
  ground (arith, h),
)
