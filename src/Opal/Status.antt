-- ===== src/Opal/Status.antt =====
-- Common/DtaDevOpal.cpp: the tokens that `getLockingRange_status` asks for and those that it reads.
use sedutil.Prelude.{
  ℕ, zero, suc, ◌≡◌, ◌≤◌, refl, ap, ◌∙◌, Bool, not, ◌==◌, ◌%◌, ◌^◌, arith, false, List, [], ◌∷◌,
  length, get_elem?, none, ltb,
}
use sedutil.Outcome.{Outcome, done, fault}
use sedutil.Response.{DtaResponse, get_token_count, get_uint64, get_uint8}
use sedutil.Device.{DtaDev, M, pure, gets, lift, ◌>>=◌}
use sedutil.Opal.Ranges.{read_status, flag}

get_elem?-over {ℓ} : {A : Type ℓ} (l : List A) (i : ℕ) → length l ≤ i → get_elem? l i ≡ none
get_elem?-over [] i h = refl
get_elem?-over (x ∷ l) zero h = absurd (omega (arith, h))
get_elem?-over (x ∷ l) (suc i) h = get_elem?-over l i (omega arith)

token_24 : (r : DtaResponse) → length r.response ≡ 24 → get_uint8 r 24 ≡ fault
unfolding get_uint8 get_uint64
token_24 r exact = rw (get_elem?-over r.response 24 (omega (arith, exact))) refl

-- A read of the reply that succeeds, and one that is out of range.
read-done {ℓ κ} :
    {A : Type ℓ} {B : Type κ} (f : DtaDev → Outcome A) (k : A → M B) (d : DtaDev) (a : A)
    → f d ≡ done a
    → (gets f >>= lift >>= k) d ≡ k a d
read-done f k d a h = ap (λ o. (lift o >>= k) d) h

flag-done :
    {B : Type 0} (n b : ℕ) (k : Bool → M B) (d : DtaDev)
    → get_uint8 d.response n ≡ done b
    → (flag n >>= k) d ≡ k (not (b == 0)) d
flag-done n b k d h = ap (λ o. ((lift o >>= λ x. pure (not (x == 0))) >>= k) d) h

flag-fault :
    {B : Type 0} (n : ℕ) (k : Bool → M B) (d : DtaDev)
    → get_uint8 d.response n ≡ fault
    → (flag n >>= k) d ≡ fault
flag-fault n k d h = ap (λ o. ((lift o >>= λ x. pure (not (x == 0))) >>= k) d) h

-- A reply of just 24 tokens passes the test of `getLockingRange_status`, which goes on to read a
-- twenty-fifth, out of range, when the five values before that one can be read.
pub read_status-24 :
    (n : ℕ) (d : DtaDev) (start size rlk wlk rl : ℕ)
    → length d.response.response ≡ 24
    → get_uint64 d.response 4 ≡ done start
    → get_uint64 d.response 8 ≡ done size
    → get_uint8 d.response 12 ≡ done rlk
    → get_uint8 d.response 16 ≡ done wlk
    → get_uint8 d.response 20 ≡ done rl
    → read_status n d ≡ fault
unfolding read_status get_token_count
read_status-24 n d start size rlk wlk rl exact h4 h8 h12 h16 h20 =
    let enough : ltb (length d.response.response % 2 ^ 32) 24 ≡ false = rw exact refl in
    rw enough (
      read-done (λ e. get_uint64 e.response 4) _ d start h4
      ∙ read-done (λ e. get_uint64 e.response 8) _ d size h8
      ∙ flag-done 12 rlk _ d h12
      ∙ flag-done 16 wlk _ d h16
      ∙ flag-done 20 rl _ d h20
      ∙ flag-fault 24 _ d (token_24 d.response exact))
