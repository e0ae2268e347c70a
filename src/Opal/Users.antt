-- ===== src/Opal/Users.antt =====
-- Common/DtaDevOpal.cpp: users and their passwords. A string is the list of its bytes before the
-- terminating zero.
use sedutil.Prelude.{
  ℕ, zero, suc, ◌+◌, ◌-◌, ◌*◌, ◌/◌, ◌%◌, ◌^◌, Bool, true, false, List, [], ◌∷◌, Option, some, drop,
  set, not, ◌&&◌, ◌||◌, ltb, ◌==◌, if◌then◌else◌, codes,
}
use sedutil.Lexicon.Uid.{opal_lockingsp_uid, opal_admin1_uid}
use sedutil.Lexicon.Token.{OpalToken, short_code, bytestring8, pin, readlockenabled}
use sedutil.Lexicon.Status.{error_code, invalid_parameter}
use sedutil.Device.{Platform, M, pure, ◌>>=◌, ◌>>◌, gets}
use sedutil.HashPwd.{dta_hash_pwd}
use sedutil.Session.{DtaSession, new_session, end_session, uid_vec}
use sedutil.Opal.{user_auth, set_table, set_table_token, with_session, as_admin1}

abbrev pub is_digit : ℕ → Bool
is_digit c = not (ltb c 48) && ltb c 58

abbrev pub is_space : ℕ → Bool
is_space c = (c == 32) || (not (ltb c 9) && ltb c 14)

-- `std::to_string` of a number that is not negative; a round for each digit.
unfoldable pub decimal : ℕ → ℕ → List ℕ → List ℕ
decimal zero n l = l
decimal (suc fuel) n l =
    let digits = (48 + n % 10) ∷ l in
    let rest = decimal fuel (n / 10) digits in if ltb n 10 then digits else rest

abbrev pub to_string : ℕ → List ℕ
to_string n = decimal (suc n) n []

unfoldable pub scan_digits : ℕ → List ℕ → ℕ
scan_digits value [] = value
scan_digits value (c ∷ l) =
    let rest = scan_digits (value * 10 + (c - 48)) l in if is_digit c then rest else value

-- The digits with their sign, in two's complement. The overflow of an `int`, which C leaves open, is
-- cut to its width.
unfoldable pub scan_sign : List ℕ → ℕ
unfolding scan_digits
scan_sign [] = 0
scan_sign (c ∷ l) =
    if c == 45
    then (2 ^ 32 - scan_digits 0 l % 2 ^ 32) % 2 ^ 32
    else if c == 43
    then scan_digits 0 l % 2 ^ 32
    else scan_digits 0 (c ∷ l) % 2 ^ 32

-- `atoi`
unfoldable pub atoi : List ℕ → ℕ
unfolding scan_sign
atoi [] = 0
atoi (c ∷ l) = let rest = atoi l in if is_space c then rest else scan_sign (c ∷ l)

-- !memcmp(word, userid, length of word), where a shorter string differs in its terminating zero
abbrev pub begins_with : List ℕ → List ℕ → Bool
begins_with [] userid = true
begins_with (c ∷ word) [] = false
begins_with (c ∷ word) (b ∷ userid) = (c == b) && begins_with word userid

-- `getAuth4User`: the return code and the vector that is filled in.
unfoldable pub get_auth4_user : List ℕ → ℕ → ℕ × List ℕ
unfolding atoi
get_auth4_user userid uidorcpin =
    if not (uidorcpin == 0) && not (uidorcpin == 10)
    then (error_code invalid_parameter, short_code bytestring8 ∷ 0x00 ∷ 0x00 ∷ 0x00 ∷ [])
    else (let kind = if uidorcpin == 0 then 0x09 else 0x0b in
        if begins_with (codes "User") userid
        then (
          0,
          short_code bytestring8
              ∷ 0x00
              ∷ 0x00
              ∷ 0x00
              ∷ kind
              ∷ 0x00
              ∷ 0x03
              ∷ 0x00
              ∷ atoi (drop 4 userid) % 256
              ∷ [],
        )
        else if begins_with (codes "Admin") userid
        then (
          0,
          short_code bytestring8
              ∷ 0x00
              ∷ 0x00
              ∷ 0x00
              ∷ kind
              ∷ 0x00
              ∷ 0x01
              ∷ 0x00
              ∷ atoi (drop 5 userid) % 256
              ∷ [],
        )
        else (error_code invalid_parameter, []))

-- The authority of `setNewPassword_SUM`, or none for a name that it refuses.
unfoldable pub sum_authority : List ℕ → Option (List ℕ)
unfolding atoi
sum_authority userid =
    if begins_with (codes "Admin") userid
    then some (set (uid_vec opal_admin1_uid) 8 (atoi (drop 5 userid) % 256))
    else if begins_with (codes "User") userid
    then some (user_auth (atoi (drop 4 userid) % 256))
    else Option.none

module _ (p : Platform) where
  -- The new password is set in the session of either authority.
  abbrev set_pin : List ℕ → List ℕ → DtaSession → M ℕ
  set_pin userid newpassword s =
      let (rc, user_cpin) = get_auth4_user userid 10 in
      if rc == 0
      then (do hash ← gets (λ d. dta_hash_pwd p d newpassword); set_table p s user_cpin pin hash)
      else pure rc

  unfoldable pub set_password : List ℕ → List ℕ → List ℕ → M ℕ
  set_password password userid newpassword = as_admin1 p password (set_pin userid newpassword)

  -- A name that is refused deletes the session that was not started.
  unfoldable pub set_pin_as : List ℕ → List ℕ → List ℕ → Option (List ℕ) → M ℕ
  set_pin_as password userid newpassword Option.none = do
    end_session p new_session
    pure (error_code invalid_parameter)
  set_pin_as password userid newpassword (some auth) =
      with_session p new_session opal_lockingsp_uid (some password) auth (λ rc. rc)
        (set_pin userid newpassword)

  unfoldable pub set_new_password_sum : List ℕ → List ℕ → List ℕ → M ℕ
  unfolding sum_authority set_pin_as
  set_new_password_sum password userid newpassword =
      set_pin_as password userid newpassword (sum_authority userid)

  -- The column is 0x05, cast to the enum.
  unfoldable pub enable_user : List ℕ → List ℕ → OpalToken → M ℕ
  enable_user password userid status = as_admin1 p password (λ s.
      let (rc, user_uid) = get_auth4_user userid 0 in
      if rc == 0 then set_table_token p s user_uid readlockenabled status else pure rc)
