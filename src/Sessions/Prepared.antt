-- ===== src/Sessions/Prepared.antt =====
-- Which session a chat turn runs in (core/runtime.py).
use mathlib.Core.Path.{subst}
use master_control.Prelude.{
  ap, ℕ, String, Bool, true, false, Option, none, some, List, [], ◌∷◌, ◌++◌, ◌≡◌, ◌∙◌, inl, inr,
  Bool-cases, Option-cases, arith, any, eqb, eqb_self,
}
use master_control.Runtime.State.{Outcome, value}
use master_control.Sessions.Tables.{Tables, SessionRow, create_session, session_exists}
use master_control.Sessions.Chat.{
  ChatState, ensure_chat_session, resume_session, forget_session, ensured, prepare_chat_session,
}

-- The session that the runtime remembers is in the store.
abbrev pub IsOpen : ChatState → Type 0
IsOpen s = (n : ℕ) → s.chat_session_id ≡ some n → session_exists n s.tables ≡ true

-- A call that returns gives a session that the store has and the runtime remembers; and however it ends,
-- the session that the runtime remembers is in the store.
abbrev pub Prepared : Outcome ℕ × ChatState → Type 0
Prepared x =
    IsOpen x.1
    × ((n : ℕ)
        → x.0 ≡ value n
        → (x.1.chat_session_id ≡ some n) × (session_exists n x.1.tables ≡ true))

any-snoc :
    {A : Type 0} (p : A → Bool) (xs : List A) (y : A) → p y ≡ true → any p (xs ++ y ∷ []) ≡ true
any-snoc p [] y h = ground (arith, h)
any-snoc p (x ∷ xs) y h = ground (arith, any-snoc p xs y h)

created-exists :
    (now : String) (t : Tables) → session_exists t.next_id (create_session now t).1 ≡ true
unfolding create_session session_exists
created-exists now t =
    any-snoc (λ (r : SessionRow). eqb r.id t.next_id) t.sessions _ (eqb_self t.next_id)

value-inj : {A : Type 0} {a b : A} → value a ≡ value b → a ≡ b
value-inj h = cc

module _ (provider_name now : String) where
  ensured-Prepared : (s : ChatState) → IsOpen s → Prepared (ensured provider_name now (value tt, s))
  unfolding ensured ensure_chat_session create_session
  ensured-Prepared s opened = elim (Option-cases s.chat_session_id) [
    | inr (n, e) ↦
        rw (e, ensure_chat_session)
          (opened, λ m h. let same = value-inj h in (e ∙ ap some same, opened m (e ∙ ap some same)))
    | inl e ↦
        rw (e, ensure_chat_session)
          (λ m h. made m (ground (arith, h)), λ m h. (ap some (value-inj h), made m (value-inj h)))
  ]
    where
      made :
          (m : ℕ) → s.tables.next_id ≡ m → session_exists m (create_session now s.tables).1 ≡ true
      made m same =
          subst (λ m. session_exists m (create_session now s.tables).1 ≡ true) same
            (created-exists now s.tables)

  -- From a state whose session is forgotten or kept.
  forget_session-IsOpen :
      (new_session : Bool) (s : ChatState)
      → IsOpen s
      → IsOpen (forget_session provider_name now new_session s)
  unfolding forget_session
  forget_session-IsOpen true s opened n h = ground (arith, h)
  forget_session-IsOpen false s opened n h = opened n h

  resumed-Prepared :
      (n : ℕ) (s : ChatState)
      → IsOpen s
      → Prepared (ensured provider_name now (resume_session provider_name now n s))
  unfolding resume_session ensured
  resumed-Prepared n s opened = elim (Bool-cases (session_exists n s.tables)) [
    | inr e ↦ rw (e, resume_session) (opened, λ m h. ground (arith, h))
    | inl e ↦
        rw (e, resume_session)
          (ensured-Prepared _ (λ m h.
            let same : n ≡ m = ground (arith, h) in
            subst (λ m. session_exists m s.tables ≡ true) same e))
  ]

  -- From a state whose session is in the store, the preparation of a chat's session ends in such a state,
  -- and a session that it returns is in the store and is the one that the runtime remembers.
  pub prepare_chat_session-Prepared :
      (session_id : Option ℕ) (new_session : Bool) (s : ChatState)
      → IsOpen s
      → Prepared (prepare_chat_session provider_name now session_id new_session s)
  unfolding prepare_chat_session
  prepare_chat_session-Prepared none new_session s opened =
      ensured-Prepared (forget_session provider_name now new_session s)
        (forget_session-IsOpen new_session s opened)
  prepare_chat_session-Prepared (some n) true s opened = (opened, λ m h. ground (arith, h))
  prepare_chat_session-Prepared (some n) false s opened =
      resumed-Prepared n (forget_session provider_name now false s)
        (forget_session-IsOpen false s opened)
