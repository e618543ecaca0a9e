-- ===== src/Records/Requests.antt =====
-- Sequences of requests to the writing endpoints of crates/rustbase-api/src/records.rs: what they
-- publish, and what they leave where they fail.
use rustbase.Base.{
  ℕ, ◌≡◌, refl, sym, ap, ◌∙◌, Bool, Str, Option, List, [], ◌∷◌, ◌++◌, append_assoc, append-nil,
}
use rustbase.Error.{CoreError, Result, ok, err}
use rustbase.Auth.{Claims}
use rustbase.Filter.{FilterNode}
use rustbase.FilterSql.{SqlFragment}
use rustbase.Collections.{AppDb, DbResult, done, failed}
use rustbase.AccessRules.{AccessAction}
use rustbase.Records.{Record}
use rustbase.Records.Stored.{Codecs}
use rustbase.Records.Writes.{
  SubscriptionKey, subscription_key, RealtimeEvent, record_created, record_updated, record_deleted,
  Live, hook_request, Fields, Hooks, WriteSteps, create_steps, update_steps, delete_steps, hooked,
  finish_write, run, creatable, permitted_row, create, update, delete,
}

-- The routes that write.
pub data RecordRequest (N J : Type 0) : Type 0 where
  creates : (workspace app coll : Str) → Fields N J → (new_id : Str) → RecordRequest N J
  updates : (workspace app coll id : Str) → Fields N J → RecordRequest N J
  deletes : (workspace app coll id : Str) → RecordRequest N J

-- An answer without its body.
pub data Answer (N J : Type 0) : Type 0 where
  created updated : Record N J → Answer N J
  no_content : Answer N J

abbrev pub answered : {A B : Type 0} → (A → B) → Result A → Result B
answered f (ok a) = ok (f a)
answered f (err e) = err e

abbrev pub answered_with : {S A B : Type 0} → (A → B) → S × Result A → S × Result B
answered_with f (s, r) = (s, answered f r)

-- The event that an answer announces.
abbrev announced :
    {N J : Type 0}
    → RecordRequest N J
    → Result (Answer N J)
    → List (SubscriptionKey × RealtimeEvent N J)
announced (creates w a coll fields id) (ok (created r)) =
    (subscription_key w a coll, record_created r) ∷ []
announced (updates w a coll id fields) (ok (updated r)) =
    (subscription_key w a coll, record_updated r) ∷ []
announced (deletes w a coll id) (ok no_content) =
    (subscription_key w a coll, record_deleted id) ∷ []
announced request answer = []

module _ {N J F W G B A : Type 0} (live : Live N J F W) (key : SubscriptionKey)
    (steps : WriteSteps N J F G B A) where
  -- A handler publishes where it answers, and only its event.
  run-published :
      (request : RecordRequest N J) (f : A → Answer N J)
      → ((a : A) → announced request (ok (f a)) ≡ (key, steps.event a) ∷ [])
      → ((e : CoreError) → announced request (err e) ≡ [])
      → (guarded : Result (AppDb F (Record N J) × G))
      → (answered_with f (run live key steps guarded)).0.published
        ≡ live.published ++ announced request (answered_with f (run live key steps guarded)).1
  run-published request f on_ok on_err (err e) = nothing e
    where
      nothing : (e : CoreError) → live.published ≡ live.published ++ announced request (err e)
      nothing e = sym (append-nil live.published) ∙ ap (λ xs. live.published ++ xs) (sym (on_err e))
  run-published request f on_ok on_err (ok (db, g)) = on_hooked (steps.before db g)
    where
      nothing : (e : CoreError) → live.published ≡ live.published ++ announced request (err e)
      nothing e = sym (append-nil live.published) ∙ ap (λ xs. live.published ++ xs) (sym (on_err e))

      on_written :
          (r : AppDb F (Record N J) × DbResult A)
          → (answered_with f (finish_write live key steps r)).0.published
            ≡ live.published
              ++ announced request (answered_with f (finish_write live key steps r)).1
      on_written (db2, failed e) = nothing (steps.on_error e)
      on_written (db2, done a) = ap (λ xs. live.published ++ xs) (sym (on_ok a))

      on_hooked :
          (r : AppDb F (Record N J) × Result B)
          → (answered_with f (hooked live key steps g r)).0.published
            ≡ live.published ++ announced request (answered_with f (hooked live key steps g r)).1
      on_hooked (db1, err e) = nothing e
      on_hooked (db1, ok b) = on_written (steps.write db1 g b)

module _ {N J F W : Type 0} (to_json : Str → Option Str)
    (parse_filter : Str → Result (FilterNode N J)) (selects : SqlFragment N J → Record N J → Bool)
    (newest_first : List (Record N J) → List (Record N J)) (hooks : Hooks N J F)
    (codecs : Codecs N J) (refuses_row : AppDb F (Record N J) → Str → Record N J → Option Str)
    (refuses_patch : AppDb F (Record N J) → Str → Fields N J → Option Str) where
  -- A request of a principal, at a time.
  unfoldable pub handle :
      Claims → ℕ → RecordRequest N J → Live N J F W → Live N J F W × Result (Answer N J)
  unfolding create update delete
  handle auth now (creates w a coll fields id) live =
      answered_with created
        (create to_json parse_filter hooks codecs refuses_row auth live w a coll fields id now)
  handle auth now (updates w a coll id fields) live = answered_with updated (
      update to_json parse_filter selects newest_first hooks codecs refuses_patch auth live w a coll
        id fields now)
  handle auth now (deletes w a coll id) live =
      answered_with (λ u. no_content)
        (delete to_json parse_filter selects newest_first hooks auth live w a coll id)

  -- Requests in turn, with what their answers announce.
  unfoldable pub handle_all :
      List (Claims × ℕ × RecordRequest N J)
      → Live N J F W
      → Live N J F W × List (SubscriptionKey × RealtimeEvent N J)
  unfolding handle
  handle_all [] live = (live, [])
  handle_all ((auth, now, r) ∷ rest) live =
      let (next, answer) = handle auth now r live in
      let (last, events) = handle_all rest next in (last, announced r answer ++ events)

  -- One request publishes the event that its answer announces, and nothing where it fails.
  handle-announced :
      (auth : Claims) (now : ℕ) (r : RecordRequest N J) (live : Live N J F W)
      → (handle auth now r live).0.published
        ≡ live.published ++ announced r (handle auth now r live).1
  unfolding handle create update delete
  handle-announced auth now (creates w a coll fields id) live =
      run-published live (subscription_key w a coll)
        (create_steps hooks codecs refuses_row (hook_request auth w a coll) fields id now)
        (creates w a coll fields id) created (λ x. refl) (λ e. refl)
        (creatable to_json parse_filter auth live.site w a coll)
  handle-announced auth now (updates w a coll id fields) live =
      run-published live (subscription_key w a coll)
        (update_steps hooks codecs refuses_patch (hook_request auth w a coll) id fields now)
        (updates w a coll id fields) updated (λ x. refl) (λ e. refl)
        (permitted_row to_json parse_filter selects newest_first auth live.site w a coll id
          AccessAction.update)
  handle-announced auth now (deletes w a coll id) live =
      run-published live (subscription_key w a coll)
        (delete_steps hooks (hook_request auth w a coll) id) (deletes w a coll id) (λ u. no_content)
        (λ x. refl) (λ e. refl)
        (permitted_row to_json parse_filter selects newest_first auth live.site w a coll id
          AccessAction.delete)

  -- A sequence of requests of any principals publishes exactly what its answers announce, in their
  -- order: an event of its kind, collection and record for each that succeeds, and nothing for one
  -- that fails.
  pub handle_all-announced :
      (requests : List (Claims × ℕ × RecordRequest N J)) (live : Live N J F W)
      → (handle_all requests live).0.published ≡ live.published ++ (handle_all requests live).1
  unfolding handle_all
  handle_all-announced [] live = sym (append-nil live.published)
  handle_all-announced ((auth, now, r) ∷ rest) live =
      let next = (handle auth now r live).0 in
      let events = (handle_all rest next).1 in
      handle_all-announced rest next
      ∙ ap (λ xs. xs ++ events) (handle-announced auth now r live)
      ∙ append_assoc live.published (announced r (handle auth now r live).1) events
