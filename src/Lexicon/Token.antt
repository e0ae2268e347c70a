-- ===== src/Lexicon/Token.antt =====
-- Common/DtaLexicon.h: tokens and atoms of one byte. Several tokens share a value.
use sedutil.Prelude.{ℕ}

-- Single byte tokens and column numbers.
pub data OpalToken : Type 0 where
  opal_true opal_false opal_boolean_expr : OpalToken
  table startrow endrow : OpalToken
  startcolumn endcolumn values : OpalToken
  pin rangestart rangelength : OpalToken
  readlockenabled writelockenabled readlocked : OpalToken
  writelocked activekey maxranges : OpalToken
  mbrenable mbrdone hostproperties : OpalToken
  dta_tokenid_bytestring dta_tokenid_sint dta_tokenid_uint : OpalToken
  dta_tokenid_token startlist endlist : OpalToken
  startname endname call : OpalToken
  endofdata endofsession starttransacton : OpalToken
  endtransacton emptyatom where_ : OpalToken

abbrev pub token_code : OpalToken → ℕ
token_code opal_true = 0x01
token_code opal_false = 0x00
token_code opal_boolean_expr = 0x03
token_code table = 0x00
token_code startrow = 0x01
token_code endrow = 0x02
token_code startcolumn = 0x03
token_code endcolumn = 0x04
token_code values = 0x01
token_code pin = 0x03
token_code rangestart = 0x03
token_code rangelength = 0x04
token_code readlockenabled = 0x05
token_code writelockenabled = 0x06
token_code readlocked = 0x07
token_code writelocked = 0x08
token_code activekey = 0x0a
token_code maxranges = 0x04
token_code mbrenable = 0x01
token_code mbrdone = 0x02
token_code hostproperties = 0x00
token_code dta_tokenid_bytestring = 0xe0
token_code dta_tokenid_sint = 0xe1
token_code dta_tokenid_uint = 0xe2
token_code dta_tokenid_token = 0xe3
token_code startlist = 0xf0
token_code endlist = 0xf1
token_code startname = 0xf2
token_code endname = 0xf3
token_code call = 0xf8
token_code endofdata = 0xf9
token_code endofsession = 0xfa
token_code starttransacton = 0xfb
token_code endtransacton = 0xfc
token_code emptyatom = 0xff
token_code where_ = 0x00

-- Tiny atoms.
pub data OpalTinyAtom : Type 0 where
  uint_00 uint_01 uint_02 : OpalTinyAtom
  uint_03 uint_04 uint_05 : OpalTinyAtom
  uint_06 uint_07 uint_08 : OpalTinyAtom
  uint_09 uint_10 uint_11 : OpalTinyAtom
  uint_12 uint_13 uint_14 : OpalTinyAtom
  uint_15 : OpalTinyAtom

abbrev pub tiny_code : OpalTinyAtom → ℕ
tiny_code uint_00 = 0x00
tiny_code uint_01 = 0x01
tiny_code uint_02 = 0x02
tiny_code uint_03 = 0x03
tiny_code uint_04 = 0x04
tiny_code uint_05 = 0x05
tiny_code uint_06 = 0x06
tiny_code uint_07 = 0x07
tiny_code uint_08 = 0x08
tiny_code uint_09 = 0x09
tiny_code uint_10 = 0x0a
tiny_code uint_11 = 0x0b
tiny_code uint_12 = 0x0c
tiny_code uint_13 = 0x0d
tiny_code uint_14 = 0x0e
tiny_code uint_15 = 0x0f

-- Heads of short atoms.
pub data OpalShortAtom : Type 0 where
  uint_3 bytestring4 bytestring8 : OpalShortAtom

abbrev pub short_code : OpalShortAtom → ℕ
short_code uint_3 = 0x83
short_code bytestring4 = 0xa4
short_code bytestring8 = 0xa8
