-- ===== src/Response/Tests.antt =====
-- Replies at concrete buffers.
use sedutil.Prelude.{◌≡◌, ◌≢◌, refl, arith, [], ◌∷◌, ◌++◌, codes, inl}
use sedutil.Outcome.{done, hung}
use sedutil.Command.{add_uint, add_cstring, emit, emit_all, emit_number}
use sedutil.Response.{DtaResponse, init, read_tokens, get_uint64, get_string}
use sedutil.Response.Tokens.{concat, kept, read_tokens-concat, init-ne-hung}
use sedutil.Response.Values.{byte-Framed, get_uint64-add_uint, get_string-add_cstring}
use sedutil.Session.Reply.{no_response}

abbrev reply : DtaResponse
reply = record no_response {
  response = (0x82 ∷ 0x10 ∷ 0x01 ∷ []) ∷ (0xaa ∷ codes "MaxPackets") ∷ [];
}

get_uint64-add_uint_example : get_uint64 reply 0 ≡ done 4097
unfolding add_uint emit emit_number
get_uint64-add_uint_example =
    get_uint64-add_uint reply 0 4097 (0xf8 ∷ []) (0x82 ∷ 0x10 ∷ 0x01 ∷ []) (omega arith) refl refl

get_string-add_cstring_example : get_string reply 1 ≡ done (codes "MaxPackets")
unfolding add_cstring emit emit_all
get_string-add_cstring_example =
    get_string-add_cstring reply 1 (codes "MaxPackets") (0xf2 ∷ []) (0xaa ∷ codes "MaxPackets")
      (omega arith) (omega arith) refl refl

read_tokens-concat_example :
    read_tokens 2 2 0 (concat ((1 ∷ []) ∷ (0x7f ∷ []) ∷ []) ++ 0 ∷ 0 ∷ [])
    ≡ done (kept ((1 ∷ []) ∷ (0x7f ∷ []) ∷ []))
read_tokens-concat_example =
    read_tokens-concat ((1 ∷ []) ∷ (0x7f ∷ []) ∷ []) (0 ∷ 0 ∷ []) 2 2 0
      (byte-Framed 1 (inl (omega arith)), (byte-Framed 0x7f (inl (omega arith)), tt)) refl
      (omega arith)

init-ne-hung_example : init (0xd0 ∷ 0xff ∷ []) ≢ hung
init-ne-hung_example = init-ne-hung (0xd0 ∷ 0xff ∷ [])
