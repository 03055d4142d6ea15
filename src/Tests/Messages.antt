-- ===== src/Tests/Messages.antt =====
-- Examples for the messages of src/cw/message.c and src/cw/conn.c: a message set with one element, a result
-- code, and a request of type 1 without elements.
use actube.Base.{
  ◌<◌, IsBytes, ℕ, ◌+◌, ◌-◌, ◌%◌, ◌≤◌, ◌≡◌, refl, ◌↔◌, ◌⊎◌, arith, Mem, true, false, none, some,
  List, [], ◌∷◌, ◌==◌, get_dword, get_word, if◌then◌else◌, pos, negsuc,
}
use actube.Header.{get_hdr_msg_offset, get_msg_type, get_msg_seqnum, get_hdr_hlen}
use actube.MsgSet.{ElemData, ElemHandler, MsgData, MsgSet}
use actube.Message.{
  Params, foreach_elem, addelem, decode_at, decode_element, decode_elements, encode_elements,
}
use actube.Message.Elems.{IsElem, Elem, Laid, Visits, foldl, offsets, foreach_elem_ends}
use actube.Message.Encode.{Handled, none_left, with_put, Selected}
use actube.Message.Decode.{Refused, Taken, decode_element-Taken, decode_elements-encode_elements}
use actube.Message.Put.{addelem-Put, addelem-IsElem}
use actube.Conn.Process.{
  search_message, detect, check_len, send_error_response, Conn, Outside, is_request, seqnum_ok,
  process_message, process_elements,
}
use actube.Conn.Process.Error.{Answer, send_error_response-Answer}
use actube.Conn.Seqnum.{Repeated, seqnum_ok_iff, process_message_twice}

abbrev blank : Mem
blank i = 0

abbrev code : Mem
code i = 2

-- Four bytes of data under the id 33; what `get` reads becomes the state.
abbrev put_code : ℕ → Mem → ℕ → ℕ × Mem × ℕ
put_code s m dst = (s, (addelem m dst 33 code 4).0, (addelem m dst 33 code 4).1)

abbrev handler : ElemHandler ℕ
handler = record {
  id = 33;
  key = 1;
  vendor = 0;
  proto = 0;
  min_len = 4;
  max_len = 4;
  get = some (λ s m len. (m 0, pos 0));
  put = some put_code;
}

abbrev elem : ElemData
elem = record { proto = 0; vendor = 0; id = 33; mand = true }

abbrev msgdata : MsgData ℕ
msgdata = record {
  type = 1;
  states = record { state = 3; next = 5 } ∷ [];
  receiver = 1;
  elements_tree = λ p v i. if i == 33 then some elem else none;
  elements_list = elem ∷ [];
  mand_keys = 1 ∷ [];
  preprocess = none;
  postprocess = none;
}

abbrev msgset : MsgSet ℕ
msgset = record {
  get_msgdata = λ t. if t == 1 then some msgdata else none;
  get_elemhandler = λ p v i. if i == 33 then some handler else none;
}

addelem-IsElem_example :
    IsElem (addelem blank 8 33 code 4).0 8 (record { id = 33; len = 4; content = code })
    × ((addelem blank 8 33 code 4).1 ≡ 4 + 4)
    × ((i : ℕ) → (i < 8) ⊎ (8 + (4 + 4) ≤ i) → (addelem blank 8 33 code 4).0 i ≡ blank i)
addelem-IsElem_example = addelem-IsElem blank 8 33 4 (omega arith) (omega arith) code

list-Handled : Handled msgset (elem ∷ [])
list-Handled =
    with_put handler put_code refl refl
      (λ s m dst. addelem-Put m dst 33 4 (omega arith) (omega arith) code) none_left

abbrev no_params : Params ℕ
no_params = record { state = 0; mand_found = some (λ k. false); unrecognized = some [] }

decode_elements-encode_elements_example :
    (s' : ℕ) × (m' : Mem) × (len : ℕ) × (xs : List Elem) × (encode_elements
        (λ s k. true)
        msgset
        16
        (elem ∷ [])
        (0, blank, 0)
      ≡ some (s', m', len))
    × Selected msgset (elem ∷ []) xs
    × Laid m' 16 xs (16 + len)
    × (decode_elements msgset (some msgdata) m' no_params 16 len
        ≡ foldl (decode_at msgset (some msgdata) m') no_params (offsets 16 xs))
decode_elements-encode_elements_example =
    decode_elements-encode_elements (λ s k. true) msgset msgset (some msgdata) no_params 16
      (elem ∷ []) 0 blank list-Handled

decode_element-Taken_example :
    Refused msgset
      (some msgdata)
      no_params
      0
      0
      33
      4
      (decode_element msgset (some msgdata) no_params 0 0 33 code 4)
    ⊎ Taken msgset
        (some msgdata)
        no_params
        0
        0
        33
        code
        4
        (decode_element msgset (some msgdata) no_params 0 0 33 code 4)
decode_element-Taken_example = decode_element-Taken msgset (some msgdata) no_params 0 0 33 code 4

foreach_elem_ends_example :
    (es : List ℕ) × Visits code 0 (0 + 600) es
    × (foreach_elem (λ a e. a + 1) code 600 0 (0 + 600) 0 ≡ foldl (λ a e. a + 1) 0 es)
foreach_elem_ends_example = foreach_elem_ends (λ a e. a + 1) code 0 600 0

-- A header of eight bytes; type 1, sequence number 5, no elements.
abbrev request : Mem
request i =
    if i == 1 then 16 else if i == 11 then 1 else if i == 12 then 5 else if i == 14 then 3 else 0

abbrev outside : Outside ℕ
outside = record {
  load_msg_set = λ s m len elems_len. some msgset;
  setup = λ s. s;
  get_msg_cb = λ s t. none;
  clear_update = λ s. s;
  set_result_code = λ s rc. s;
  base_exists = λ s k. true;
}

abbrev conn_in : ℕ → Conn ℕ
conn_in state = record {
  role = 1;
  capwap_state = state;
  capwap_prevstate = 0;
  strict_hdr = false;
  detected = true;
  seqnum = negsuc 0;
  last_seqnum_received = negsuc 0;
  wbid = 1;
  base_rmac = none;
  req_buffer = blank;
  resp_buffer = blank;
  msgset = msgset;
  state = 0;
  sent = [];
}

seqnum_ok_iff_example :
    (seqnum_ok (pos 250) 3 ≡ true) ↔ ((1 ≤ (3 + 256 - 250) % 256) × ((3 + 256 - 250) % 256 ≤ 127))
seqnum_ok_iff_example = seqnum_ok_iff 250 3 (omega arith) (omega arith)

-- A set that knows no message: the request is answered with an error.
abbrev no_messages : MsgSet ℕ
no_messages = record { get_msgdata = λ t. none; get_elemhandler = λ p v i. none }

abbrev stranger : Conn ℕ
stranger = record (conn_in 3) { msgset = no_messages }

abbrev answered : Conn ℕ
answered = send_error_response (record stranger { last_seqnum_received = pos 5 }) request 19

first_time : process_message outside stranger request 16 ≡ some (answered, negsuc 0)
unfolding process_message process_elements search_message detect check_len get_hdr_hlen get_dword
    get_word get_msg_seqnum
first_time = refl

request_is_request : is_request (get_msg_type request (get_hdr_msg_offset request 0)) ≡ true
unfolding get_hdr_hlen get_dword
request_is_request = refl

process_message_twice_example : Repeated answered (process_message outside answered request 20)
process_message_twice_example =
    process_message_twice outside stranger answered request 16 20 (negsuc 0) request_is_request refl
      first_time

blank-IsBytes : IsBytes blank
blank-IsBytes i = omega arith

request-IsBytes : IsBytes request
request-IsBytes i = ground arith

send_error_response-Answer_example :
    Answer stranger
      (send_error_response stranger request 19)
      (get_msg_type request (get_hdr_msg_offset request 0) + 1)
      (get_msg_seqnum request (get_hdr_msg_offset request 0))
      19
send_error_response-Answer_example =
    send_error_response-Answer stranger request 19 blank-IsBytes request-IsBytes tt
