-- ===== src/Tests/Wire.antt =====
-- The protocol: common/req.cxx (`parse`), common/serialize.cxx and client/client.cxx.
use coxx.Base.{
  ℕ, ◌+◌, ◌≤◌, ◌≡◌, refl, ◌↔◌, ◌⊎◌, some, List, [], ◌∷◌, ◌++◌, length, take, arith, replicate, ltb,
  if◌then◌else◌,
}
use coxx.Base.Bytes.{Bytes, le32, load32, slice, blit}
use coxx.Parse.{max_message_size, parse, parse_words, malformed}
use coxx.Parse.Frame.{frame}
use coxx.Parse.RoundTrip.{parse_total, parse-eq-zero_iff}
use coxx.Serialize
use coxx.Serialize.Value
use coxx.Serialize.Value.{emit, emit_all, encode, emit-encode}
use coxx.Serialize.Arrays.{end_arr-begin_arr}
use coxx.Client.{Line, done, fault, deserialize, minus_one, bad_response}
use coxx.Client.Reads.{lines, deserialize-encode}
use coxx.Client.Total.{EndsWithin, deserialize-EndsWithin, deserialize-wrapped_length}
use coxx.Client.Request.{sent, refused, send_request}
use coxx.Client.Request.Sent.{send_request-frame, parse-send_request}

-- get k
abbrev get_k : List Bytes
get_k = (103 ∷ 101 ∷ 116 ∷ []) ∷ (107 ∷ []) ∷ []

abbrev asked : Bytes
asked = frame get_k

parse-asked : parse asked 16 ≡ some (0, get_k)
unfolding parse parse_words load32 slice
parse-asked = refl

-- A byte too many.
parse_long : parse (asked ++ 0 ∷ []) 17 ≡ some (malformed, get_k)
unfolding parse parse_words load32 slice
parse_long = refl

-- The last word is cut.
parse_cut : parse asked 15 ≡ some (malformed, (103 ∷ 101 ∷ 116 ∷ []) ∷ [])
unfolding parse parse_words load32 slice
parse_cut = refl

parse-eq-zero_iff_example :
    (parse asked 16 ≡ some (0, get_k)) ↔ ((length get_k ≤ 1024) × (take 16 asked ≡ frame get_k))
parse-eq-zero_iff_example = parse-eq-zero_iff asked 16 get_k (omega arith) (omega arith)

parse_total_example :
    (r : ℕ × List Bytes) × (parse asked 15 ≡ some r) × ((r.0 ≡ 0) ⊎ (r.0 ≡ malformed))
parse_total_example = parse_total asked 15 (omega arith) (omega arith)

abbrev stack : Bytes
stack = replicate 4092 7

length-stack : max_message_size ≤ 4 + length stack
length-stack = omega arith

send_request-frame_example :
    send_request stack get_k ≡ (if ltb 4096 16 then refused else sent (le32 16 ++ asked))
send_request-frame_example = send_request-frame stack get_k (omega arith) length-stack

sent_get : send_request stack get_k ≡ sent (le32 16 ++ asked)
sent_get = send_request-frame_example

parse-send_request_example : parse asked 16 ≡ some (0, get_k)
parse-send_request_example =
    parse-send_request stack get_k (omega arith) (omega arith) length-stack sent_get

-- ["k", 2.5 as a pattern]
abbrev pair : Value.Value
pair =
    Value.arr
      (Value.item (Value.str (107 ∷ [])) (Value.item (Value.dbl 0x4004_0000_0000_0000) Value.empty))

emit-encode_example : emit (9 ∷ []) pair ≡ (9 ∷ []) ++ encode pair
emit-encode_example = emit-encode (9 ∷ []) pair (omega arith)

end_arr-begin_arr_example :
    Serialize.end_arr
      (emit_all (Serialize.begin_arr []).0 (Value.item Value.nil Value.empty))
      (Serialize.begin_arr []).1
      1
    ≡ some (emit_all (Serialize.arr [] 1) (Value.item Value.nil Value.empty))
end_arr-begin_arr_example = end_arr-begin_arr [] (Value.item Value.nil Value.empty) 1 (omega arith)

end_arr_run : Serialize.end_arr (6 ∷ 0 ∷ 0 ∷ 0 ∷ 0 ∷ []) 1 258 ≡ some (6 ∷ 2 ∷ 1 ∷ 0 ∷ 0 ∷ [])
unfolding Serialize.end_arr blit
end_arr_run = refl

deserialize-encode_example :
    deserialize 20 (encode pair ++ 0 ∷ []) ≡ done (lines pair) (length (encode pair))
deserialize-encode_example =
    deserialize-encode pair 20 (0 ∷ []) (omega arith) (unfold encode in omega arith)
      (unfold encode in omega arith)

-- An array that ends too early.
deserialize_short :
    deserialize 9 (6 ∷ 2 ∷ 0 ∷ 0 ∷ 0 ∷ 0 ∷ [])
    ≡ done (Line.arr_len 2 ∷ Line.nil ∷ bad_response ∷ []) minus_one
unfolding deserialize load32
deserialize_short = refl

deserialize-EndsWithin_example : EndsWithin 6 (deserialize 9 (6 ∷ 2 ∷ 0 ∷ 0 ∷ 0 ∷ 0 ∷ []))
deserialize-EndsWithin_example =
    deserialize-EndsWithin 9 (6 ∷ 2 ∷ 0 ∷ 0 ∷ 0 ∷ 0 ∷ []) (omega arith) (omega arith)

deserialize-wrapped_length_example : deserialize 9 (2 ∷ 0xff ∷ 0xff ∷ 0xff ∷ 0xff ∷ 1 ∷ []) ≡ fault
deserialize-wrapped_length_example =
    deserialize-wrapped_length 8 0xffff_ffff (1 ∷ []) (omega arith) (omega arith) (omega arith)
