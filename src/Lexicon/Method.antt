-- ===== src/Lexicon/Method.antt =====
-- Common/DtaLexicon.h: the identifiers of methods.
use sedutil.Prelude.{ℕ, List, [], ◌∷◌}

-- The enum that indexes `OPALMETHOD`.
pub data OpalMethod : Type 0 where
  properties startsession revert : OpalMethod
  activate eget eset : OpalMethod
  next eauthenticate getacl : OpalMethod
  genkey revertsp get : OpalMethod
  set authenticate random : OpalMethod
  erase : OpalMethod

-- The rows of `OPALMETHOD`.
abbrev pub opalmethod : OpalMethod → List ℕ
opalmethod properties = 0 ∷ 0 ∷ 0 ∷ 0 ∷ 0 ∷ 0 ∷ 0xff ∷ 1 ∷ []
opalmethod startsession = 0 ∷ 0 ∷ 0 ∷ 0 ∷ 0 ∷ 0 ∷ 0xff ∷ 2 ∷ []
opalmethod revert = 0 ∷ 0 ∷ 0 ∷ 6 ∷ 0 ∷ 0 ∷ 2 ∷ 2 ∷ []
opalmethod activate = 0 ∷ 0 ∷ 0 ∷ 6 ∷ 0 ∷ 0 ∷ 2 ∷ 3 ∷ []
opalmethod eget = 0 ∷ 0 ∷ 0 ∷ 6 ∷ 0 ∷ 0 ∷ 0 ∷ 6 ∷ []
opalmethod eset = 0 ∷ 0 ∷ 0 ∷ 6 ∷ 0 ∷ 0 ∷ 0 ∷ 7 ∷ []
opalmethod next = 0 ∷ 0 ∷ 0 ∷ 6 ∷ 0 ∷ 0 ∷ 0 ∷ 8 ∷ []
opalmethod eauthenticate = 0 ∷ 0 ∷ 0 ∷ 6 ∷ 0 ∷ 0 ∷ 0 ∷ 0x0c ∷ []
opalmethod getacl = 0 ∷ 0 ∷ 0 ∷ 6 ∷ 0 ∷ 0 ∷ 0 ∷ 0x0d ∷ []
opalmethod genkey = 0 ∷ 0 ∷ 0 ∷ 6 ∷ 0 ∷ 0 ∷ 0 ∷ 0x10 ∷ []
opalmethod revertsp = 0 ∷ 0 ∷ 0 ∷ 6 ∷ 0 ∷ 0 ∷ 0 ∷ 0x11 ∷ []
opalmethod get = 0 ∷ 0 ∷ 0 ∷ 6 ∷ 0 ∷ 0 ∷ 0 ∷ 0x16 ∷ []
opalmethod set = 0 ∷ 0 ∷ 0 ∷ 6 ∷ 0 ∷ 0 ∷ 0 ∷ 0x17 ∷ []
opalmethod authenticate = 0 ∷ 0 ∷ 0 ∷ 6 ∷ 0 ∷ 0 ∷ 0 ∷ 0x1c ∷ []
opalmethod random = 0 ∷ 0 ∷ 0 ∷ 6 ∷ 0 ∷ 0 ∷ 6 ∷ 1 ∷ []
opalmethod erase = 0 ∷ 0 ∷ 0 ∷ 6 ∷ 0 ∷ 0 ∷ 8 ∷ 3 ∷ []
