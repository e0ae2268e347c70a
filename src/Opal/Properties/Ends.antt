-- ===== src/Opal/Properties/Ends.antt =====
-- Common/DtaDevOpal.cpp: the end of the loop over the properties of a drive.
use sedutil.Prelude.{
  ℕ, zero, suc, ◌+◌, ◌/◌, ◌%◌, ◌^◌, [], drop, length, ◌<◌, ◌≤◌, ◌≢◌, ◌≡◌, refl, arith, Bool, true,
  false, ltb, ◌==◌, codes, get_elem?, if◌then◌else◌,
}
use mathlib.Core.List.{reverse}
use sedutil.Outcome.{Outcome, done, exit, fault, hung, bind-ne-hung}
use sedutil.Lexicon.Token.{token_code, startname, dta_tokenid_bytestring}
use sedutil.Response.{
  DtaResponse, token, first, is_tiny, is_short, is_medium, is_long, collect, token_is, get_string,
  get_uint64, get_uint32, get_token_count,
}
use sedutil.Response.Tokens.{or_fault-ne-hung}
use sedutil.Discovery.Total.{if-ne-hung}
use sedutil.Opal.Properties.{c_str, same_word, read_property, scan_properties}

done-ne-hung {ℓ} : {A : Type ℓ} (a : A) → done a ≢ hung
done-ne-hung a = λ q. cc

exit-ne-hung {ℓ} : {A : Type ℓ} → ◌≢◌ {A = Outcome A} exit hung
exit-ne-hung = λ q. cc

fault-ne-hung {ℓ} : {A : Type ℓ} → ◌≢◌ {A = Outcome A} fault hung
fault-ne-hung = λ q. cc

test-ne-hung {ℓ} :
    {A : Type ℓ} (b : Bool) {t e : Outcome A}
    → (b ≡ true → t ≢ hung)
    → (b ≡ false → e ≢ hung)
    → (if b then t else e) ≢ hung
test-ne-hung true h k = h refl
test-ne-hung false h k = k refl

module _ (r : DtaResponse) where
  token_is-ne-hung : (n : ℕ) → token_is r n ≢ hung
  unfolding token_is
  token_is-ne-hung n =
      bind-ne-hung (token r n) _ (or_fault-ne-hung (get_elem? r.response n))
        λ t _. bind-ne-hung (first t) _ (or_fault-ne-hung (get_elem? t 0)) λ b _. λ q. cc

  get_string-ne-hung : (n : ℕ) → get_string r n ≢ hung
  unfolding get_string
  get_string-ne-hung n =
      bind-ne-hung (token r n) _ (or_fault-ne-hung (get_elem? r.response n)) λ t _.
        bind-ne-hung (first t) _ (or_fault-ne-hung (get_elem? t 0)) λ b _.
          if-ne-hung (is_tiny b) exit-ne-hung (
            if-ne-hung (is_short b) (done-ne-hung (drop 1 t)) (
              if-ne-hung (is_medium b) (done-ne-hung (drop 2 t))
                (if-ne-hung (is_long b) (done-ne-hung (drop 4 t)) (done-ne-hung []))))

  get_uint32-ne-hung : (n : ℕ) → get_uint32 r n ≢ hung
  unfolding get_uint32 get_uint64
  get_uint32-ne-hung n =
      bind-ne-hung (get_uint64 r n) _
        (bind-ne-hung (token r n) _ (or_fault-ne-hung (get_elem? r.response n)) λ t _.
          bind-ne-hung (first t) _ (or_fault-ne-hung (get_elem? t 0)) λ b _.
            if-ne-hung (is_tiny b)
              (if-ne-hung (b / 0x40 % 2 == 0) (done-ne-hung (b % 64)) exit-ne-hung)
              (if-ne-hung (is_short b)
                (if-ne-hung (b / 0x10 % 2 == 0)
                  (if-ne-hung (ltb 9 (length t)) fault-ne-hung
                    (done-ne-hung (collect (reverse (drop 1 t)) 1 0)))
                  exit-ne-hung)
                exit-ne-hung))
        (λ i _. done-ne-hung (i % 2 ^ 32))

  read_property-ne-hung : (i : ℕ) (sizes : ℕ × ℕ) → read_property r i sizes ≢ hung
  unfolding read_property
  read_property-ne-hung i (max_packet, max_token) =
      bind-ne-hung (get_string r (i + 1)) _ (get_string-ne-hung (i + 1)) λ name _.
        if-ne-hung (same_word (codes "MaxComPacketSize") (c_str name))
          (bind-ne-hung (get_uint32 r (i + 2)) _ (get_uint32-ne-hung (i + 2))
            λ size _. done-ne-hung ((size, max_token), false))
          (if-ne-hung (same_word (codes "MaxIndTokenSize") (c_str name))
            (bind-ne-hung (get_uint32 r (i + 2)) _ (get_uint32-ne-hung (i + 2))
              λ size _. done-ne-hung ((max_packet, size), true))
            (done-ne-hung ((max_packet, max_token), false)))

  scan_from-ne-hung :
      (fuel i : ℕ) (sizes : ℕ × ℕ)
      → 1 ≤ fuel
      → get_token_count r < i + fuel
      → scan_properties fuel i r sizes ≢ hung
  unfolding scan_properties
  scan_from-ne-hung zero i sizes k h = elim k [ ]
  scan_from-ne-hung (suc fuel) i sizes k h =
      test-ne-hung (ltb i (get_token_count r))
        (λ e.
          let more : 1 ≤ fuel = ground arith in
          bind-ne-hung (token_is r i) _ (token_is-ne-hung i) λ kind _.
            if-ne-hung (kind == token_code startname)
              (bind-ne-hung (token_is r (i + 1)) _ (token_is-ne-hung (i + 1)) λ name_kind _.
                if-ne-hung (name_kind == token_code dta_tokenid_bytestring)
                  (bind-ne-hung (read_property r i sizes) _ (read_property-ne-hung i sizes) λ p _.
                    if-ne-hung p.1 (done-ne-hung p.0)
                      (scan_from-ne-hung fuel (i + 3) p.0 more (omega arith)))
                  (done-ne-hung sizes))
              (scan_from-ne-hung fuel (i + 1) sizes more (omega arith)))
        (λ e. done-ne-hung sizes)

  -- The rounds that `properties` gives to the loop over a reply are enough, whatever the reply.
  pub scan_properties-ne-hung :
      (sizes : ℕ × ℕ) → scan_properties (get_token_count r + 1) 0 r sizes ≢ hung
  scan_properties-ne-hung sizes =
      scan_from-ne-hung (get_token_count r + 1) 0 sizes (omega arith) (omega arith)
