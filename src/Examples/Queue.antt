-- ===== src/Examples/Queue.antt =====
-- Two runners that share a table with a few tasks.
use amoxtli.Common.{
  ◌≡◌, ◌≢◌, ◌⊎◌, inl, inr, refl, sym, ◌∙◌, true, false, not, ℕ, ◌≤◌, ◌+◌, ◌=?◌, ◌==◌, none, some,
  List, [], ◌∷◌, if◌then◌else◌, ltb, arith, Bool-cases,
}
use amoxtli.Common.Int.{pos}
use amoxtli.Common.Lists.{All, length, keep, All-keep, keep-All}
use amoxtli.Common.Result.{ok, err, ok-injective}
use amoxtli.Tasks.{Task, Event}
use amoxtli.Queue.{
  Row, Database, QueueError, update_where, count_where, upsert, find_row, is_pending, lease, claim,
  new_row, reclaim_expired, save_row, count_pending, get_row, mark_canceled,
}
use amoxtli.Queue.Table.{Unique, find_row_self}
use amoxtli.Queue.Statements.{Statement, OldestFirst, IsDatabase, perform, perform_all, view}
use amoxtli.Queue.Runner.{
  Runner, World, reached, new_runner, claim_next, claim_loop, claim_by, rebuild, cancel_persistent,
  schedule_persistent, schedule_when, admit_task, store_task,
}
use amoxtli.Queue.Claims.{claim_once}
use amoxtli.Queue.Rows.{has_status}
use amoxtli.Queue.Lifecycle.{SoundTable, perform_all-Sound, perform_all-SoundTable}
use amoxtli.Queue.Moves.{Moves, perform-Moves}
use amoxtli.Queue.Leases.{lease_exclusive, crash_recovers}
use amoxtli.Queue.Methods.{Taken, Selected, FirstInLine, claim_next_owned, claim_next_oldest}
use amoxtli.Queue.Cancel.{live_view, cancel_final}
use amoxtli.Queue.Admission.{schedule_bound}
use amoxtli.Queue.Throttle.{latest, latest-writes, last_progress, last_message}
use amoxtli.Queue.Records.{Ended, Recorded, execute_task_records}
use amoxtli.Queue.Execution.{HandlerOutcome, execute_task, writes, no_progress, reports}

module _ {F : Type 0} where
  abbrev min_row : Row F → List (Row F) → Row F
  min_row r [] = r
  min_row r (o ∷ rs) = if ltb o.scheduled_at r.scheduled_at then min_row o rs else min_row r rs

  abbrev select_oldest : List (Row F) → List (Row F)
  select_oldest [] = []
  select_oldest (r ∷ rs) = min_row r rs ∷ keep (λ o. not (o.id == (min_row r rs).id)) (r ∷ rs)

  min_row-All :
      (P : Row F → Type 0) (r : Row F) (rs : List (Row F)) → P r → All P rs → P (min_row r rs)
  min_row-All P r [] h hs = h
  min_row-All P r (o ∷ rs) h hs = elim (Bool-cases (ltb o.scheduled_at r.scheduled_at)) [
    | inl b ↦ rw b (min_row-All P o rs hs.0 hs.1)
    | inr b ↦ rw b (min_row-All P r rs h hs.1)
  ]

  min_row_le : (r : Row F) (rs : List (Row F)) → (min_row r rs).scheduled_at ≤ r.scheduled_at
  min_row_le r [] = omega arith
  min_row_le r (o ∷ rs) = ground (arith, min_row_le o rs, min_row_le r rs)

  min_row_least :
      (n : ℕ) (r : Row F) (rs : List (Row F))
      → n ≡ (min_row r rs).scheduled_at
      → All (λ o. n ≤ o.scheduled_at) rs
  min_row_least n r [] e = tt
  min_row_least n r (o ∷ rs) e = elim (Bool-cases (ltb o.scheduled_at r.scheduled_at)) [
    | inl b ↦
        let e' : n ≡ (min_row o rs).scheduled_at = e ∙ rw b refl in
        (rw e' (min_row_le o rs), min_row_least n o rs e')
    | inr b ↦
        let e' : n ≡ (min_row r rs).scheduled_at = e ∙ rw b refl in
        (ground (arith, b, e', min_row_le r rs), min_row_least n r rs e')
  ]

  All-select_oldest :
      (rs : List (Row F)) (found : List (Row F)) (P : Row F → Type 0)
      → All P rs
      → found ≡ select_oldest rs
      → All P found
  All-select_oldest [] found P h e = rw e tt
  All-select_oldest (r ∷ rs) found P h e =
      rw e
        (min_row-All P r rs h.0 h.1, All-keep P (λ o. not (o.id == (min_row r rs).id)) (r ∷ rs) h)

-- the table is the state, and no statement fails
abbrev table : Database ℕ (List (Row ℕ))
table = record {
  rows = λ s. s;
  update = λ p f s. (ok (count_where p s), update_where p f s);
  delete = λ p s. (ok (count_where p s), keep (λ r. not (p r)) s);
  save = λ row s. (ok 1, upsert row s);
  count = λ p s. ok (count_where p s);
  query = λ p s. ok (keep p s);
  oldest = λ p limit s. ok (select_oldest (keep p s));
}

oldest_head : (rs found : List (Row ℕ)) → found ≡ select_oldest rs → OldestFirst table rs found
oldest_head [] found e = rw e refl
oldest_head (r ∷ rs) found e = rw e (min_row_le r rs, min_row_least _ r rs refl)

both : {A : Type 0} (P Q : A → Type 0) (xs : List A) → All P xs → All Q xs → All (λ x. P x × Q x) xs
both P Q [] p q = tt
both P Q (x ∷ xs) p q = ((p.0, q.0), both P Q xs p.1 q.1)

table-IsDatabase : IsDatabase table
table-IsDatabase = record {
  updates = λ p f s. (refl, refl);
  deletes = λ p s. (refl, refl);
  saves = λ row s. (refl, refl);
  counts = λ p s n h. sym (ok-injective h);
  queries = λ p s found h. sym (ok-injective h);
  oldests = λ p limit s found u h. (
    All-select_oldest (keep p s) found (λ r. (p r ≡ true) × (find_row r.id s ≡ some r))
        (both (λ r. p r ≡ true) (λ r. find_row r.id s ≡ some r) (keep p s) (keep-All p s)
          (All-keep (λ r. find_row r.id s ≡ some r) p s (find_row_self s u)))
        (sym (ok-injective h)),
    oldest_head (keep p s) found (sym (ok-injective h)),
  );
}

abbrev import_task : Task
import_task = record { id = "t1"; kind = "import" }

abbrev index_task : Task
index_task = record { id = "t2"; kind = "index" }

abbrev two_tasks : List (Row ℕ)
two_tasks = new_row 0 5 index_task "{}" ∷ new_row 0 3 import_task "{}" ∷ []

setup : List (Statement ℕ)
setup = Statement.saved 5 index_task "{}" false ∷ Statement.saved 3 import_task "{}" false ∷ []

two_tasks-Unique : Unique two_tasks
two_tasks-Unique = ((refl, tt), (tt, tt))

perform_all-Sound_example :
    SoundTable table 0 100 table-IsDatabase (perform_all table 0 100 setup [])
perform_all-Sound_example = perform_all-Sound table 0 100 table-IsDatabase setup [] refl

two_tasks-SoundTable : SoundTable table 0 100 table-IsDatabase two_tasks
unfolding perform save_row setup
two_tasks-SoundTable = perform_all-Sound table 0 100 table-IsDatabase setup [] refl

perform-Moves_example :
    Moves 0 100 "t1"
      (Statement.claimed "r1" 60 "t1")
      (view table "t1" (perform_all table 0 100 [] two_tasks))
      (view table "t1" (
        perform table 0 100
          (Statement.claimed "r1" 60 "t1")
          (perform_all table 0 100 [] two_tasks)))
perform-Moves_example =
    perform-Moves table 0 100 table-IsDatabase [] (Statement.claimed "r1" 60 "t1") "t1" two_tasks
      two_tasks-SoundTable

first_claim_wins : (claim table "r1" 60 "t1" two_tasks).0 ≡ ok true
unfolding claim
first_claim_wins = refl

abbrev meanwhile : List (Statement ℕ)
meanwhile =
    Statement.extended "r1" 90 "t1" ∷ Statement.claimed "r2" 99 "t2" ∷ Statement.purged 50 10 ∷ []

claim_once_example :
    (claim table "r2" 80 "t1"
      (perform_all table 0 100 meanwhile (claim table "r1" 60 "t1" two_tasks).1)).0
    ≢ ok true
claim_once_example =
    claim_once table table-IsDatabase 0 100 "r1" "r2" "t1" 60 80 two_tasks meanwhile
      two_tasks-Unique first_claim_wins ((refl, refl), ((refl, refl), ((refl, refl), tt)))

abbrev rivals : List (Statement ℕ)
rivals =
    Statement.reclaimed 60
    ∷ Statement.finished "r2" "t1" 20 none
    ∷ Statement.claimed "r2" 99 "t1"
    ∷ []

lease_exclusive_example :
    (row : Row ℕ) × (view table "t1" two_tasks ≡ some row)
    × (is_pending row.status ≡ true)
    × (view table "t1" (perform_all table 0 100 rivals (claim table "r1" 60 "t1" two_tasks).1)
        ≡ some (lease "r1" 60 row))
lease_exclusive_example =
    lease_exclusive table 0 100 table-IsDatabase "r1" "t1" 60 two_tasks rivals two_tasks-SoundTable
      first_claim_wins (refl, (refl, (refl, tt)))

abbrev held_row : Row ℕ
held_row = lease "r1" 60 (new_row 0 3 import_task "{}")

abbrev one_held : List (Row ℕ)
one_held = new_row 0 5 index_task "{}" ∷ held_row ∷ []

one_held-SoundTable : SoundTable table 0 100 table-IsDatabase one_held
unfolding perform claim
one_held-SoundTable =
    perform_all-SoundTable table 0 100 table-IsDatabase (Statement.claimed "r1" 60 "t1" ∷ [])
      two_tasks two_tasks-SoundTable

reclaim_works : (reclaim_expired table 61 one_held).0 ≡ ok tt
unfolding reclaim_expired
reclaim_works = refl

abbrev late : List (Statement ℕ)
late = Statement.finished "r1" "t1" 70 none ∷ []

crash_recovers_example :
    (has_status is_pending
        (view table "t1" (perform_all table 0 100 late (reclaim_expired table 61 one_held).1))
      ≡ true)
    × (((problem : QueueError) × ((claim table "r2" 200 "t1"
              (perform_all table 0 100 late (reclaim_expired table 61 one_held).1)).0
            ≡ err problem))
        ⊎ ((claim table "r2" 200 "t1"
              (perform_all table 0 100 late (reclaim_expired table 61 one_held).1)).0
            ≡ ok true))
crash_recovers_example =
    crash_recovers table 0 100 table-IsDatabase "r2" "t1" 200 61 60 held_row one_held late
      one_held-SoundTable refl refl refl refl reclaim_works (refl, tt)

abbrev import_runner : Runner
import_runner = record (new_runner "r1" 1 (pos 4) true 60 1000) {
  handlers = "import" ∷ "index" ∷ [];
  local =
      ("t1", record { task = import_task; scheduled_at = 3 })
      ∷ ("t2", record { task = index_task; scheduled_at = 5 })
      ∷ [];
}

-- another runner takes the older task before the first claim
abbrev busy : World ℕ
busy = record {
  others = λ n. if n =? 1 then Statement.claimed "r2" 70 "t1" ∷ [] else [];
  clock = λ n. 10 + n;
}

abbrev alone : World ℕ
alone = record { others = λ n. []; clock = λ n. 10 + n }

takes_other : (claim_next table 0 100 busy import_runner two_tasks).0 ≡ ok (some index_task)
unfolding claim_next claim_by claim_loop claim perform rebuild
takes_other = refl

claim_next_owned_example :
    Taken table 0 100 table-IsDatabase busy
      (Selected table 0 100 table-IsDatabase busy import_runner
        (reached table 0 100 busy 0 two_tasks))
      import_runner
      index_task
      (claim_next table 0 100 busy import_runner two_tasks).1
claim_next_owned_example =
    claim_next_owned table 0 100 table-IsDatabase busy import_runner two_tasks index_task
      two_tasks-Unique takes_other

takes_oldest : (claim_next table 0 100 alone import_runner two_tasks).0 ≡ ok (some import_task)
unfolding claim_next claim_by claim_loop claim perform rebuild
takes_oldest = refl

claim_next_oldest_example :
    FirstInLine table 0 100 table-IsDatabase alone import_runner.handlers import_runner import_task
      two_tasks
unfolding rebuild
claim_next_oldest_example =
    claim_next_oldest table 0 100 table-IsDatabase alone import_runner two_tasks import_task
      two_tasks-Unique (λ n. refl) ((λ p. (index_task, refl)), ((λ p. (import_task, refl)), tt))
      takes_oldest

cancels : (cancel_persistent table 0 100 busy "t1" import_runner two_tasks).0 ≡ ok tt
unfolding cancel_persistent get_row mark_canceled perform claim
cancels = refl

cancel_final_example :
    (live_view (
        view table "t1" (
          perform_all table 0 100 late
            (cancel_persistent table 0 100 busy "t1" import_runner two_tasks).2))
      ≡ false)
    × ((claim table "r1" 200 "t1" (
          perform_all table 0 100 late
            (cancel_persistent table 0 100 busy "t1" import_runner two_tasks).2)).0
        ≢ ok true)
cancel_final_example =
    cancel_final table 0 100 table-IsDatabase busy "t1" "r1" 200 import_runner two_tasks late
      two_tasks-Unique cancels (refl, tt)

abbrev third_task : Task
third_task = record { id = "t3"; kind = "import" }

schedules_third :
    (schedule_persistent table 0 100 alone third_task (ok "{}") import_runner two_tasks).0 ≡ ok tt
unfolding schedule_persistent schedule_when admit_task store_task count_pending save_row
schedules_third = refl

schedule_bound_example :
    count_where
      (λ row. is_pending row.status)
      (schedule_persistent table 0 100 alone third_task (ok "{}") import_runner two_tasks).2
    ≤ 4
schedule_bound_example =
    schedule_bound table 0 100 table-IsDatabase alone third_task (ok "{}") 4 import_runner two_tasks
      refl refl refl schedules_third

abbrev same_progress : ℕ → ℕ
same_progress n = n

-- the second event comes too early to be written on its own
abbrev two_events : List (Event ℕ × ℕ)
two_events =
    (record { message = some "read"; progress = some 10 }, 20)
    ∷ (record { message = some "split"; progress = none }, 30)
    ∷ []

latest-writes_example :
    latest (0, "") (writes same_progress true (no_progress 0) two_events)
    ≡ (last_progress same_progress 0 two_events, last_message same_progress "" two_events)
latest-writes_example = latest-writes same_progress two_events (no_progress 0) (0, "") (λ q. refl)

execute_task_records_example :
    (end : Row ℕ) × (view table "t1"
        (execute_task table 0 100 alone same_progress import_runner import_task two_events
          HandlerOutcome.returned_nil one_held).1
      ≡ some end)
    × Ended same_progress 0 100
        (alone.clock (
          length (
            reports table 0 100 alone same_progress import_runner import_task two_events
              HandlerOutcome.returned_nil)))
        held_row
        end
    × Recorded same_progress 0 100 HandlerOutcome.returned_nil two_events held_row end
execute_task_records_example =
    execute_task_records table 0 100 table-IsDatabase (λ p f s. (_, _, refl)) alone same_progress
      import_runner import_task 60 held_row two_events HandlerOutcome.returned_nil one_held
      ((refl, tt), (tt, tt)) refl (refl, refl, refl, refl) refl (λ n. tt) refl
