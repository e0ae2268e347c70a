-- ===== src/Enterprise/Wire.antt =====
-- Common/DtaDevEnterprise.cpp: the two ways in which a call on an object is built.
use sedutil.Prelude.{ℕ, ◌≡◌, sym, ap, ◌∙◌, true, List, [], ◌∷◌, ◌++◌, append_assoc, length}
use sedutil.Lexicon.Method.{OpalMethod}
use sedutil.Lexicon.Uid.{opal_authority_table}
use sedutil.Lexicon.Token.{token_code, call}
use sedutil.Command.{Token, build, reset, reset_vecs, reset_method, change_invoking_uid}
use sedutil.Command.Encode.{at, emit-at, emit_all-at, method_bytes, change_invoking_uid-at}
use sedutil.Opal.{table_command}
use sedutil.Enterprise.{method_vec, object_command}

reset_vecs-at :
    (object : List ℕ) (method : OpalMethod)
    → reset_vecs object (method_vec method) ≡ at (reset.cmdbuf ++ method_bytes object method)
unfolding reset_vecs
reset_vecs-at object method =
    let z = reset.cmdbuf in
    let m = z ++ token_code call ∷ [] in
    let regroup : (m ++ object) ++ method_vec method ≡ z ++ method_bytes object method =
      simp append_assoc in
    cc (
      sedutil.Command.Encode.reset-at,
      emit-at (token_code call) z,
      emit_all-at object m,
      emit_all-at (method_vec method) (m ++ object),
      regroup,
    )

-- A call that is started on an object of nine bytes is the one that is started on a table and then
-- turned to that object, with any arguments.
pub object_command-table_command :
    (object : List ℕ) (method : OpalMethod) (ts : List Token)
    → length object ≡ 9
    → object_command object method ts ≡ table_command object method ts
unfolding object_command table_command
object_command-table_command object method ts nine =
    ap (λ c. build ts true c)
      (reset_vecs-at object method
        ∙ sym (change_invoking_uid-at object opal_authority_table method nine))
