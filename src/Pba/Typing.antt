-- ===== src/Pba/Typing.antt =====
-- LinuxPBA/GetPassPhrase.cpp: what is typed, with its mistakes and their corrections.
use sedutil.Prelude.{
  ℕ, zero, suc, ◌-◌, ◌≡◌, refl, ap, sym, ◌∙◌, arith, false, List, [], ◌∷◌, ◌++◌, append_assoc,
  append-nil, length, replicate, length-append, take-append, ◌==◌, All,
}
use sedutil.Outcome.{done}
use sedutil.Pba.{edit, read_keys, get_pass_phrase}

-- A key that stands for itself.
abbrev pub IsPlain : ℕ → Type 0
IsPlain c = ((c == 10) ≡ false) × ((c == 127) ≡ false) × ((c == 27) ≡ false)

-- What the user does: types a letter, types some letters and takes them back, or presses escape.
pub data Stroke : Type 0 where
  letter : ℕ → Stroke
  slip : List ℕ → Stroke
  escape : Stroke

-- The keys, before further ones.
abbrev pub keys_of : List Stroke → List ℕ → List ℕ
keys_of [] more = more
keys_of (letter c ∷ strokes) more = c ∷ keys_of strokes more
keys_of (slip l ∷ strokes) more = l ++ (replicate (length l) 127 ++ keys_of strokes more)
keys_of (escape ∷ strokes) more = 27 ∷ keys_of strokes more

-- The text that is meant.
abbrev pub text_of : List Stroke → List ℕ
text_of [] = []
text_of (letter c ∷ strokes) = c ∷ text_of strokes
text_of (_ ∷ strokes) = text_of strokes

abbrev pub Plain : Stroke → Type 0
Plain (letter c) = IsPlain c
Plain (slip l) = All IsPlain l
Plain escape = Unit {0}

edit-plain : (c : ℕ) (password : List ℕ) → IsPlain c → edit c password ≡ password ++ (c ∷ [])
unfolding edit
edit-plain c password (enter, back, esc) = rw (back, esc) refl

edit-back : (password : List ℕ) (c : ℕ) → edit 127 (password ++ (c ∷ [])) ≡ password
unfolding edit
edit-back password c =
    let len = length-append password (c ∷ []) in
    let some_there : (length (password ++ (c ∷ [])) == 0) ≡ false = ground arith in
    let one_less : length (password ++ (c ∷ [])) - 1 ≡ length password = omega (arith, len) in
    rw (some_there, one_less) (take-append password (c ∷ []))

read_keys-plain :
    (c : ℕ) (keys password : List ℕ)
    → IsPlain c
    → read_keys (c ∷ keys) password ≡ read_keys keys (password ++ (c ∷ []))
unfolding read_keys
read_keys-plain c keys password h = rw (h.0, edit-plain c password h) refl

read_keys-append :
    (l keys password : List ℕ)
    → All IsPlain l
    → read_keys (l ++ keys) password ≡ read_keys keys (password ++ l)
read_keys-append [] keys password h = rw (append-nil password) refl
read_keys-append (c ∷ l) keys password (h, hs) =
    read_keys-plain c (l ++ keys) password h
    ∙ read_keys-append l keys (password ++ (c ∷ [])) hs
    ∙ ap (read_keys keys) (append_assoc password (c ∷ []) l)

replicate-cons : (n a : ℕ) (l : List ℕ) → replicate (suc n) a ++ l ≡ replicate n a ++ (a ∷ l)
replicate-cons zero a l = refl
replicate-cons (suc n) a l = ap (λ t. a ∷ t) (replicate-cons n a l)

-- As many backspaces as there are letters take these back.
read_keys-back :
    (l keys password : List ℕ)
    → read_keys (replicate (length l) 127 ++ keys) (password ++ l) ≡ read_keys keys password
unfolding read_keys
read_keys-back [] keys password = rw (append-nil password) refl
read_keys-back (c ∷ l) keys password =
    ap (λ t. read_keys t (password ++ (c ∷ l))) (replicate-cons (length l) 127 keys)
    ∙ ap (read_keys (replicate (length l) 127 ++ (127 ∷ keys)))
        (sym (append_assoc password (c ∷ []) l))
    ∙ read_keys-back l (127 ∷ keys) (password ++ (c ∷ []))
    ∙ ap (read_keys keys) (edit-back password c)

read_keys-keys_of :
    (strokes : List Stroke) (rest password : List ℕ)
    → All Plain strokes
    → read_keys (keys_of strokes (10 ∷ rest)) password ≡ done (password ++ text_of strokes)
unfolding read_keys edit
read_keys-keys_of [] rest password h = rw (append-nil password) refl
read_keys-keys_of (letter c ∷ strokes) rest password (h, hs) =
    read_keys-plain c (keys_of strokes (10 ∷ rest)) password h
    ∙ read_keys-keys_of strokes rest (password ++ (c ∷ [])) hs
    ∙ ap done (append_assoc password (c ∷ []) (text_of strokes))
read_keys-keys_of (slip l ∷ strokes) rest password (h, hs) =
    read_keys-append l (replicate (length l) 127 ++ keys_of strokes (10 ∷ rest)) password h
    ∙ read_keys-back l (keys_of strokes (10 ∷ rest)) password
    ∙ read_keys-keys_of strokes rest password hs
read_keys-keys_of (escape ∷ strokes) rest password (h, hs) =
    read_keys-keys_of strokes rest password hs

-- What is typed before the return key is the text that is meant: its letters, without those that were
-- typed and taken back, however often, and without the escape key.
pub get_pass_phrase-keys_of :
    (strokes : List Stroke) (rest : List ℕ)
    → All Plain strokes
    → get_pass_phrase (keys_of strokes (10 ∷ rest)) ≡ done (text_of strokes)
unfolding get_pass_phrase
get_pass_phrase-keys_of strokes rest h = read_keys-keys_of strokes rest [] h
