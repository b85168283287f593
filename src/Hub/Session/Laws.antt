-- ===== src/Hub/Session/Laws.antt =====
-- Proofs on admission in hub/session.py.
use tsanet.Prelude.{
  Bool-cases, ℕ, String, ◌≡◌, ◌⊎◌, inl, inr, refl, Bool, true, false, none, some, [], ◌∷◌, ◌++◌,
  arith,
}
use tsanet.Errors.{Kind, ok, raise_error}
use tsanet.Hub.Session.{Session, SessionManager, new_session, admit, disconnect, allow_takeover}

module _ (c : ℕ) (peer transport now : String) (force : Bool) (m : SessionManager) where
  -- Over another session, without `force` and without the permission: refused, and nothing changes.
  pub admit_refused :
      (incumbent : Session)
      → m.current ≡ some incumbent
      → force ≡ false
      → m.takeover_allowed ≡ false
      → admit c peer transport force now m
        ≡ (raise_error Kind.session_busy "a controller session is already active", m)
  unfolding admit
  admit_refused incumbent active unforced unallowed = ground arith

  -- Without a session, every connection is admitted, and nothing is closed.
  pub admit_free :
      m.current ≡ none
      → admit c peer transport force now m ≡ (
        ok (new_session c peer transport now),
        record m { current = some (new_session c peer transport now) },
      )
  unfolding admit
  admit_free e = ground arith

  -- A session that is let in over another closes the other's connection and uses up the permission.
  pub admit_takeover :
      (incumbent : Session)
      → m.current ≡ some incumbent
      → (force ≡ true) ⊎ (m.takeover_allowed ≡ true)
      → admit c peer transport force now m ≡ (
        ok (new_session c peer transport now),
        record {
          current = some (new_session c peer transport now);
          takeover_allowed = false;
          closed = m.closed ++ incumbent.connection ∷ [];
        },
      )
  unfolding admit
  admit_takeover incumbent active allowed = ground arith

-- `admit` never leaves two connections with a session. While one is active, a new connection without
-- `force` and without the permission is refused with `SessionBusy`, by which nothing changes; with one
-- of them it takes the session over, which uses up the permission, and the connection that had it is
-- closed.
pub admit_one_session :
    (c : ℕ) (peer transport now : String) (force : Bool) (m : SessionManager) (incumbent : Session)
    → m.current ≡ some incumbent
    → let (r, m') = admit c peer transport force now m in
      ((force ≡ false)
        × (m.takeover_allowed ≡ false)
        × (r ≡ raise_error Kind.session_busy "a controller session is already active")
        × (m' ≡ m))
      ⊎ (((force ≡ true) ⊎ (m.takeover_allowed ≡ true))
          × (r ≡ ok (new_session c peer transport now))
          × (m'.current ≡ some (new_session c peer transport now))
          × (m'.takeover_allowed ≡ false)
          × (m'.closed ≡ m.closed ++ incumbent.connection ∷ []))
admit_one_session c peer transport now force m incumbent active = elim (Bool-cases force) [
  | inl forced ↦
      rw (admit_takeover c peer transport now force m incumbent active (inl forced))
        (inr (inl forced, refl, refl, refl, refl))
  | inr unforced ↦ elim (Bool-cases m.takeover_allowed) [
    | inl allowed ↦
        rw (admit_takeover c peer transport now force m incumbent active (inr allowed))
          (inr (inr allowed, refl, refl, refl, refl))
    | inr unallowed ↦
        rw (admit_refused c peer transport now force m incumbent active unforced unallowed)
          (inl (unforced, unallowed, refl, refl))
  ]
]

-- The permission of `allow_takeover` is not used up by an admission that finds no session: after
-- `force_takeover` and a disconnect, the next client is admitted with the permission still set, and
-- the client after it evicts the first without `force`.
pub takeover_outlives_admission :
    (a b : ℕ) (peer transport now : String) (m : SessionManager)
    → let m₁ = (admit a peer transport false now (disconnect (allow_takeover m))).1 in
      (m₁.current ≡ some (new_session a peer transport now))
      × (m₁.takeover_allowed ≡ true)
      × (admit b peer transport false now m₁ ≡ (
        ok (new_session b peer transport now),
        record {
          current = some (new_session b peer transport now);
          takeover_allowed = false;
          closed = m₁.closed ++ a ∷ [];
        },
      ))
unfolding admit disconnect allow_takeover
takeover_outlives_admission a b peer transport now m = (ground arith, ground arith, ground arith)
