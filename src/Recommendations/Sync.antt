-- ===== src/Recommendations/Sync.antt =====
-- `sync_session_recommendations` of store/session_store.py, with the helpers that it calls. It is one
-- transaction: an error leaves the table as it was.
use master_control.Prelude.{
  ◌≡◌, refl, ℕ, suc, String, Bool, true, false, not, ◌&&◌, ◌||◌, Option, none, some, List, [], ◌∷◌,
  ◌++◌, map, eqb, ◌==◌, any, filter, contains, if◌then◌else◌,
}
use master_control.Codec.{Codec}
use master_control.Sql.{select, update_where}
use master_control.Recommendations.Rows.{
  Status, Row, Table, Candidate, is_active, action_columns, in_session, has_id, has_key,
  newest_first,
}

-- The answer of a method that may raise `sqlite3.IntegrityError`.
pub data Answer (A : Type 0) : Type 0 where
  ok : A → Answer A
  integrity_error : Answer A

infixl 5 ◌>>=◌
abbrev pub ◌>>=◌ : {X Y : Type 0} → Answer X → (X → Answer Y) → Answer Y
ok x >>= f = f x
integrity_error >>= f = integrity_error

pub >>=-eq-ok :
    {X Y : Type 0} (first : Answer X) (f : X → Answer Y) {y : Y}
    → (first >>= f) ≡ ok y
    → (x : X) × (first ≡ ok x) × (f x ≡ ok y)
>>=-eq-ok (ok x) f success = (x, refl, success)
>>=-eq-ok integrity_error f success = cc

pub record Progress : Type 0 where
  pub table : Table
  pub new_ids : List ℕ
  pub reopened_ids : List ℕ

-- `existing_by_key.get(dedupe_key)`: of two rows with one key the later is in the dict.
unfoldable pub existing_with_key : String → List Row → Option Row
existing_with_key key [] = none
existing_with_key key (r ∷ rows) = elim (existing_with_key key rows) [
  | some later ↦ some later
  | none ↦ if r.dedupe_key == key then some r else none
]

-- A dismissed or resolved recommendation opens again.
unfoldable pub next_status : Status → Status
next_status Status.dismissed = Status.opened
next_status Status.resolved = Status.opened
next_status s = s

unfoldable pub is_closed : Status → Bool
is_closed Status.dismissed = true
is_closed Status.resolved = true
is_closed _ = false

module _ (codec : Codec) (now : String) (session : ℕ) where
  unfoldable pub new_row : ℕ → Candidate → Row
  new_row n c =
      let a = action_columns codec c.action in
      record {
        id = n;
        session_id = session;
        dedupe_key = c.dedupe_key;
        source_key = c.source_key;
        severity = c.severity;
        message = c.message;
        status = Status.opened;
        action_kind = a.kind;
        action_title = a.title;
        action_tool_name = a.tool_name;
        action_arguments_json = a.arguments_json;
        created_at = now;
        updated_at = now;
        last_seen_at = now;
      }

  -- The SET clause of the UPDATE for an existing recommendation.
  unfoldable pub refresh : Candidate → Status → Row → Row
  refresh c s r =
      let a = action_columns codec c.action in
      record r {
        source_key = c.source_key;
        severity = c.severity;
        message = c.message;
        action_kind = a.kind;
        action_title = a.title;
        action_tool_name = a.tool_name;
        action_arguments_json = a.arguments_json;
        status = s;
        updated_at = now;
        last_seen_at = now;
      }

  unfoldable pub refresh_existing : Candidate → Row → Progress → Progress
  refresh_existing c e p = record p {
    table = record p.table {
      rows = update_where (has_id e.id) (refresh c (next_status e.status)) p.table.rows;
    };
    reopened_ids = if is_closed e.status then p.reopened_ids ++ e.id ∷ [] else p.reopened_ids;
  }

-- `sessions` holds the ids of the table sessions.
module _ (codec : Codec) (now : String) (sessions : List ℕ) (session : ℕ) where
  -- The INSERT; the session is a FOREIGN KEY into the table sessions, and (session_id, dedupe_key) is UNIQUE.
  unfoldable pub insert_new : Candidate → Progress → Answer Progress
  insert_new c p =
      if not (any (eqb session) sessions) || any (has_key session c.dedupe_key) p.table.rows
      then integrity_error
      else ok (record p {
        table = record {
          rows = p.table.rows ++ new_row codec now session p.table.next_id c ∷ [];
          next_id = suc p.table.next_id;
        };
        new_ids = p.new_ids ++ p.table.next_id ∷ [];
      })

  unfoldable pub sync_candidate : List Row → Candidate → Progress → Answer Progress
  sync_candidate existing c p = elim (existing_with_key c.dedupe_key existing) [
    | none ↦ insert_new c p
    | some e ↦ ok (refresh_existing codec now session c e p)
  ]

  unfoldable pub sync_candidates : List Row → List Candidate → Progress → Answer Progress
  sync_candidates existing [] p = ok p
  sync_candidates existing (c ∷ cs) p = do
    p' ← sync_candidate existing c p
    sync_candidates existing cs p'

-- WHERE session_id = ? AND status IN ('open', 'accepted') AND dedupe_key NOT IN (…)
unfoldable pub is_stale : ℕ → List String → Row → Bool
is_stale session keys r =
    eqb r.session_id session && is_active r.status && not (contains keys r.dedupe_key)

-- WHERE session_id = ? AND status IN ('open', 'accepted')
unfoldable pub is_open_in : ℕ → Row → Bool
is_open_in session r = eqb r.session_id session && is_active r.status

-- `auto_resolved_ids`, by the two queries of the two branches.
unfoldable pub auto_resolved_ids : ℕ → List String → List Row → List ℕ
auto_resolved_ids session [] rows = map (λ r. r.id) (filter (is_open_in session) rows)
auto_resolved_ids session (k ∷ keys) rows =
    map (λ r. r.id) (filter (is_stale session (k ∷ keys)) rows)

-- WHERE id IN (…)
unfoldable pub id_in : List ℕ → Row → Bool
id_in ids r = any (λ n. eqb r.id n) ids

unfoldable pub set_resolved : String → Row → Row
set_resolved now r = record r { status = Status.resolved; updated_at = now }

unfoldable pub mark_recommendations_resolved : String → List ℕ → List Row → List Row
mark_recommendations_resolved now [] rows = rows
mark_recommendations_resolved now (n ∷ ids) rows =
    update_where (id_in (n ∷ ids)) (set_resolved now) rows

pub record Synced : Type 0 where
  pub active : List Row
  pub new : List Row
  pub reopened : List Row
  pub auto_resolved : List Row

unfoldable pub list_session_recommendations : ℕ → ℕ → Table → List Row
list_session_recommendations session limit t = select newest_first (in_session session) limit t.rows

-- `[by_id[item_id] for item_id in ids if item_id in by_id]`; the ids of a table are distinct.
unfoldable pub pick_ids : List Row → List ℕ → List Row
pick_ids items [] = []
pick_ids items (n ∷ ids) = filter (has_id n) items ++ pick_ids items ids

unfoldable pub report : ℕ → Table → Progress → List ℕ → Synced
report session t p resolved_ids =
    let items = list_session_recommendations session 200 t in
    record {
      active = filter (λ r. is_active r.status) items;
      new = pick_ids items p.new_ids;
      reopened = pick_ids items p.reopened_ids;
      auto_resolved = pick_ids items resolved_ids;
    }

abbrev pub candidate_keys : List Candidate → List String
candidate_keys = map (λ c. c.dedupe_key)

-- The last statements of the transaction, on the table that the loop leaves.
unfoldable pub auto_resolve : String → ℕ → List String → Table → Table
auto_resolve now session keys t = record t {
  rows = mark_recommendations_resolved now (auto_resolved_ids session keys t.rows) t.rows;
}

unfoldable pub sync_session_recommendations :
    Codec → String → List ℕ → ℕ → List Candidate → Table → Answer (Synced × Table)
sync_session_recommendations codec now sessions session cs t = do
  let start : Progress = record { table = t; new_ids = []; reopened_ids = [] }
  p ← sync_candidates codec now sessions session (filter (in_session session) t.rows) cs start
  let t' = auto_resolve now session (candidate_keys cs) p.table
  ok (report session t' p (auto_resolved_ids session (candidate_keys cs) p.table.rows), t')
