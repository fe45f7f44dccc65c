-- ===== src/Refresh/Tests.antt =====
-- Examples for src/providers/refresh_lock.rs.
use router.Prelude.{
  ℕ, ◌+◌, ◌≤◌, ◌≡◌, ◌↔◌, refl, Bool, true, false, Option, none, some, List, [], ◌∷◌, arith, All,
  ltb, if◌then◌else◌,
}
use router.Prelude.Text.{Text, codes}
use router.Error.{ok}
use router.Credentials.{Credentials}
use router.Refresh.{Answers, row_of, run_waiters}
use router.Refresh.Waiters.{HasToken, run_waiters-once}
use router.Examples.{codex, credentials}

abbrev rotated : Credentials
rotated = record credentials { access_token = some (codes "a2"); refresh_token = some (codes "r2") }

-- The first write fails, the second one succeeds.
abbrev answers : Answers
answers = record {
  readable = true;
  refreshed = λ _. ok rotated;
  write_error = λ n. if ltb n 1 then some (codes "locked") else none;
}

run_waiters-once_example :
    let (results, spent) =
      run_waiters codex (answers ∷ answers ∷ []) credentials (some (row_of credentials)) in
    (spent ≡ 1) × All (HasToken codex credentials (some (codes "a2"))) results
unfolding router.Prelude.Text.text_eq
run_waiters-once_example =
    run_waiters-once codex credentials answers (answers ∷ []) (row_of credentials) rotated 1 refl
      refl refl (omega arith) refl (refl, tt)
