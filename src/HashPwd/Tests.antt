-- ===== src/HashPwd/Tests.antt =====
-- A password on the sample drive.
use sedutil.Prelude.{◌≤◌, length, codes}
use sedutil.Response.Tokens.{Framed}
use sedutil.HashPwd.{dta_hash_pwd}
use sedutil.HashPwd.Token.{dta_hash_pwd-Framed}
use sedutil.Samples.{sample, drive}

dta_hash_pwd-Framed_example :
    Framed (dta_hash_pwd sample drive (codes "secret"))
    × (length (dta_hash_pwd sample drive (codes "secret")) ≤ 34)
dta_hash_pwd-Framed_example = dta_hash_pwd-Framed sample drive (codes "secret")
