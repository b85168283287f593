-- ===== src/Protocol/Transport/Fuel.antt =====
-- Proofs on the rounds of `_recv_exact` in protocol/transport.py and protocol/security.py.
use tsanet.Prelude.{ℕ, zero, suc, ◌-◌, ◌≤◌, ◌≡◌, refl, String, List, [], ◌∷◌, ◌++◌, length, arith}
use tsanet.Errors.{Result, ok, err, Exec, continue}
use tsanet.Protocol.Transport.{Socket, socket_recv, received, recv_loop, recv_exact_or}

-- Blocks whose later steps agree agree.
continue_cong :
    {S A B : Type 0} (f g : A → Exec S B) (r : Result A × S)
    → ((a : A) (s : S) → f a s ≡ g a s)
    → continue f r ≡ continue g r
continue_cong f g (ok a, s) same = same a s
continue_cong f g (err e, s) same = refl

module _ (why : String) where
  -- A round that read something asks for less, so that the rounds after it have fuel left.
  received_agree :
      (f g : ℕ → List ℕ → Exec Socket (List ℕ)) (n : ℕ) (chunks chunk : List ℕ) (s : Socket)
      → ((m : ℕ) (chunks : List ℕ) (s : Socket) → m ≤ n → f m chunks s ≡ g m chunks s)
      → received why f n chunks chunk s ≡ received why g n chunks chunk s
  unfolding received
  received_agree f g n chunks [] s same = refl
  received_agree f g n chunks (b ∷ bs) s same =
      same (suc n - length (b ∷ bs)) (chunks ++ b ∷ bs) s (omega arith)

  recv_loop_agree :
      (fuel other n : ℕ) (chunks : List ℕ) (s : Socket)
      → n ≤ fuel
      → n ≤ other
      → recv_loop why fuel n chunks s ≡ recv_loop why other n chunks s
  unfolding recv_loop
  recv_loop_agree zero zero n chunks s le le' = refl
  recv_loop_agree zero (suc other) zero chunks s le le' = refl
  recv_loop_agree zero (suc other) (suc n) chunks s le le' = absurd (omega arith)
  recv_loop_agree (suc fuel) zero zero chunks s le le' = refl
  recv_loop_agree (suc fuel) zero (suc n) chunks s le le' = absurd (omega arith)
  recv_loop_agree (suc fuel) (suc other) zero chunks s le le' = refl
  recv_loop_agree (suc fuel) (suc other) (suc n) chunks s le le' =
      continue_cong (received why (recv_loop why fuel) n chunks)
        (received why (recv_loop why other) n chunks) (socket_recv (suc n) s)
        (λ chunk t.
          received_agree (recv_loop why fuel) (recv_loop why other) n chunks chunk t
            (λ m later u fits. recv_loop_agree fuel other m later u (omega arith) (omega arith)))

  -- The rounds of `_recv_exact` end: on every socket, whatever arrives, times out or is closed, the
  -- number of bytes asked for is enough rounds, and more change nothing.
  pub recv_loop-enough :
      (fuel count : ℕ) (s : Socket)
      → count ≤ fuel
      → recv_loop why fuel count [] s ≡ recv_exact_or why count s
  unfolding recv_exact_or
  recv_loop-enough fuel count s enough = recv_loop_agree fuel count count [] s enough (omega arith)
