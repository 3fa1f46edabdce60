-- ===== src/State/Files.antt =====
-- The files of a store (src/state.rs), as the operating system keeps them: `state.json`, its
-- temporary sibling, and the two things that the program does not decide. `faults` says for each
-- system call in turn whether it fails, and `others` what other processes write to `state.json`
-- before each time that this process gets the lock. Behind the end of the lists no call fails and
-- nobody else writes.
use launch_code.Prelude.{ℕ, Option, none, some, List, [], ◌∷◌, ok, err, take}
use launch_code.Prelude.Io.{Io, ◌>>◌}
use launch_code.Text.{Text}
use launch_code.Error.{StateError, IoError, io}

-- A failed system call, and how much of its data a failed write has written.
pub record Fault : Type 0 where
  pub error : IoError
  pub written : ℕ

pub record Files : Type 0 where
  pub state_file : Option Text
  pub tmp_file : Option Text
  pub faults : List (Option Fault)
  pub others : List (Option Text → Option Text)

abbrev next_fault : List (Option Fault) → Option Fault
next_fault [] = none
next_fault (f ∷ fs) = f

abbrev rest_of {ℓ} : {A : Type ℓ} → List A → List A
rest_of [] = []
rest_of (x ∷ xs) = xs

abbrev pop : Files → Files
pop fs = record fs { faults = rest_of fs.faults }

-- One system call: `done` if it succeeds, `broken` if it fails.
unfoldable pub syscall : (Files → Files) → (Fault → Files → Files) → Io Files StateError (Unit {0})
syscall done broken fs = elim (next_fault fs.faults) [
  | none ↦ (ok tt, done (pop fs))
  | some f ↦ (err (io f.error), broken f (pop fs))
]

abbrev unchanged : Fault → Files → Files
unchanged f fs = fs

-- A call that touches neither file: `create_dir_all`, opening, syncing, locking.
unfoldable pub touch : Io Files StateError (Unit {0})
unfolding syscall
touch = syscall (λ fs. fs) unchanged

abbrev pub apply_other : List (Option Text → Option Text) → Option Text → Option Text
apply_other [] file = file
apply_other (f ∷ fs) file = f file

-- What `state.json` holds once this process has the lock.
abbrev pub locked_file : Files → Option Text
locked_file fs = apply_other fs.others fs.state_file

-- `FileExt::lock_exclusive` and `lock_shared`: others may write until the lock is there.
unfoldable pub lock : Io Files StateError (Unit {0})
unfolding syscall
lock =
    syscall (λ fs. record fs { state_file = locked_file fs; others = rest_of fs.others }) unchanged

-- `open` with `truncate(true)` on the temporary file.
unfoldable pub open_tmp : Io Files StateError (Unit {0})
unfolding syscall
open_tmp = syscall (λ fs. record fs { tmp_file = some [] }) unchanged

-- `write_all` may fail with a part of the payload written.
unfoldable pub write_tmp : Text → Io Files StateError (Unit {0})
unfolding syscall
write_tmp payload =
    syscall (λ fs. record fs { tmp_file = some payload })
      (λ f fs. record fs { tmp_file = some (take f.written payload) })

-- `fs::rename` replaces the file at once.
unfoldable pub rename_tmp : Io Files StateError (Unit {0})
unfolding syscall
rename_tmp = syscall (λ fs. record fs { state_file = fs.tmp_file; tmp_file = none }) unchanged

-- `fs::read_to_string`, of a file that exists
unfoldable pub read_state : Io Files StateError Text
unfolding touch
read_state = do touch; λ fs. (ok (elim fs.state_file [ none ↦ [] | some text ↦ text ]), fs)
