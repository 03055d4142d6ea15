-- ===== src/Message/Decode.antt =====
-- `cw_decode_element` and `cw_decode_elements` of src/cw/message.c.
use actube.Base.{
  ℕ, ◌+◌, ◌≤◌, ◌<◌, none, ◌≡◌, ◌≢◌, refl, subst, ◌⊎◌, inl, inr, arith, Mem, Bool, true, false, not,
  ◌&&◌, Option, some, Option-cases, List, Bool-cases, ltb, ◌==◌, ℤ, negsuc,
}
use actube.MsgSet.{ElemData, ElemHandler, MsgData, MsgSet}
use actube.Message.{
  Params, found, allowed, decode_known, decode_element, decode_at, decode_elements,
  unrecognized_message_element, encode_elements,
}
use actube.Message.Elems.{Elem, Laid, Laid-Visits, offsets, foldl, foreach_elem-Visits}
use actube.Message.Encode.{Handled, Selected, encode_elements-Laid}

-- The length is one that the handler takes; a maximum of 0 is none.
pub record Fits {S : Type 0} (handler : ElemHandler S) (len : ℕ) : Type 0 where
  pub long_enough : handler.min_len ≤ len
  pub short_enough : (handler.max_len ≡ 0) ⊎ (len ≤ handler.max_len)

not_below : (a b : ℕ) → ltb a b ≡ false → b ≤ a
not_below a b h = ground arith

not_too_big : (len most : ℕ) → (ltb most len && not (most == 0)) ≡ false → (most ≡ 0) ⊎ (len ≤ most)
not_too_big len most h = ground arith

-- Why an element is refused, and what it leaves: nothing that a handler can reach changes; a mandatory
-- element that is long enough counts as found all the same.
pub data Refused {S : Type 0} (msgset : MsgSet S) (msgdata : Option (MsgData S)) (params : Params S)
    (proto vendor elem_id len : ℕ) : Params S × ℤ → Type 0 where
  no_handler :
      msgset.get_elemhandler proto vendor elem_id ≡ none
      → Refused msgset msgdata params proto vendor elem_id len
          (params, unrecognized_message_element)
  not_allowed :
      allowed msgdata proto vendor elem_id ≡ none
      → Refused msgset msgdata params proto vendor elem_id len
          (params, unrecognized_message_element)
  too_short :
      (handler : ElemHandler S)
      → msgset.get_elemhandler proto vendor elem_id ≡ some handler
      → len < handler.min_len
      → Refused msgset msgdata params proto vendor elem_id len (params, negsuc 0)
  too_long :
      (handler : ElemHandler S) (elem : ElemData)
      → msgset.get_elemhandler proto vendor elem_id ≡ some handler
      → allowed msgdata proto vendor elem_id ≡ some elem
      → handler.max_len < len
      → handler.max_len ≢ 0
      → Refused msgset msgdata params proto vendor elem_id len
          (record params { mand_found = found elem handler.key params.mand_found }, negsuc 0)
  no_get :
      (handler : ElemHandler S) (elem : ElemData)
      → msgset.get_elemhandler proto vendor elem_id ≡ some handler
      → allowed msgdata proto vendor elem_id ≡ some elem
      → Fits handler len
      → handler.get ≡ none
      → Refused msgset msgdata params proto vendor elem_id len (
        record params { mand_found = found elem handler.key params.mand_found },
        unrecognized_message_element,
      )

-- The element is taken: it has a handler, is allowed in the message, fits, and `get` has run on it
-- once; its key counts as found.
pub record Taken {S : Type 0} (msgset : MsgSet S) (msgdata : Option (MsgData S)) (params : Params S)
    (proto vendor elem_id : ℕ) (bytes : Mem) (len : ℕ) (out : Params S × ℤ) : Type 0 where
  pub handler : ElemHandler S
  pub elem : ElemData
  pub get : S → Mem → ℕ → S × ℤ
  pub handled : msgset.get_elemhandler proto vendor elem_id ≡ some handler
  pub is_allowed : allowed msgdata proto vendor elem_id ≡ some elem
  pub fits : Fits handler len
  pub has_get : handler.get ≡ some get
  pub state : out.0.state ≡ (get params.state bytes len).0
  pub result : out.1 ≡ (get params.state bytes len).1
  pub marked : out.0.mand_found ≡ found elem handler.key params.mand_found
  pub reported : out.0.unrecognized ≡ params.unrecognized

below : (a b : ℕ) → ltb a b ≡ true → a < b
below a b h = ground arith

too_big : (len most : ℕ) → (ltb most len && not (most == 0)) ≡ true → (most < len) × (most ≢ 0)
too_big len most h = (ground arith, λ e. absurd (ground arith))

module _ {S : Type 0} (msgset : MsgSet S) (msgdata : Option (MsgData S)) (params : Params S)
    (proto vendor elem_id : ℕ) (bytes : Mem) (len : ℕ) where
  known :
      (handler : ElemHandler S) (elem : ElemData)
      → msgset.get_elemhandler proto vendor elem_id ≡ some handler
      → allowed msgdata proto vendor elem_id ≡ some elem
      → Refused msgset msgdata params proto vendor elem_id len
          (decode_known handler elem params bytes len)
        ⊎ Taken msgset msgdata params proto vendor elem_id bytes len
            (decode_known handler elem params bytes len)
  unfolding decode_known
  known handler elem handled is_allowed = elim (Bool-cases (ltb len handler.min_len)) [
    | inl short ↦ inl (rw short (too_short handler handled (below len handler.min_len short)))
    | inr enough ↦ elim (Bool-cases (ltb handler.max_len len && not (handler.max_len == 0))) [
      | inl big ↦
          let (longer, bounded) = too_big len handler.max_len big in
          inl (rw (enough, big) (too_long handler elem handled is_allowed longer bounded))
      | inr small ↦
          let fits : Fits handler len = record {
            long_enough = not_below len handler.min_len enough;
            short_enough = not_too_big len handler.max_len small;
          } in
          elim (Option-cases handler.get) [
            | inl absent ↦
                inl
                  (rw (enough, small, absent) (no_get handler elem handled is_allowed fits absent))
            | inr (get, present) ↦ inr (
                rw (enough, small, present)
                  (record {
                    handler = handler;
                    elem = elem;
                    get = get;
                    handled = handled;
                    is_allowed = is_allowed;
                    fits = fits;
                    has_get = present;
                    state = refl;
                    result = refl;
                    marked = refl;
                    reported = refl;
                  }))
          ]
    ]
  ]

  -- `cw_decode_element` either refuses an element or takes it. It refuses one that has no handler, is
  -- not allowed in the message, or whose handler has no `get`, with "unrecognized message element",
  -- and one that is shorter or longer than its handler takes with -1; no handler runs, and nothing
  -- changes but that a mandatory element that is long enough is entered as found. Otherwise the
  -- element has a handler, is allowed, fits, and is entered as found; the state and the result are
  -- those of one call of `get` on its data, and the list of unrecognized elements is as before.
  pub decode_element-Taken :
      Refused msgset msgdata params proto vendor elem_id len
        (decode_element msgset msgdata params proto vendor elem_id bytes len)
      ⊎ Taken msgset msgdata params proto vendor elem_id bytes len
          (decode_element msgset msgdata params proto vendor elem_id bytes len)
  unfolding decode_element
  decode_element-Taken = elim (Option-cases (msgset.get_elemhandler proto vendor elem_id)) [
    | inl absent ↦ inl (rw (decode_element, absent) (no_handler absent))
    | inr (handler, handled) ↦ elim (Option-cases (allowed msgdata proto vendor elem_id)) [
      | inl other ↦ inl (rw (decode_element, handled, other) (not_allowed other))
      | inr (elem, is_allowed) ↦
          rw (decode_element, handled, is_allowed) (known handler elem handled is_allowed)
    ]
  ]

module _ {S : Type 0} (msgset : MsgSet S) (msgdata : Option (MsgData S)) where
  pub decode_elements-Laid :
      (m : Mem) (params : Params S) (p len : ℕ) (xs : List Elem)
      → Laid m p xs (p + len)
      → decode_elements msgset msgdata m params p len
        ≡ foldl (decode_at msgset msgdata m) params (offsets p xs)
  unfolding decode_elements
  decode_elements-Laid m params p len xs l =
      foreach_elem-Visits (decode_at msgset msgdata m) m len params (Laid-Visits l) (omega arith)

-- What an encoder wrote is decoded element by element. All elements of the message have a handler
-- whose `put` writes one element. Then `cw_encode_elements` returns, and `cw_decode_elements` with any
-- message set and message, run on exactly the bytes that it wrote, treats exactly the written elements,
-- each once, in their order; these are the message's own, but for some that are not mandatory or have
-- no `put`.
pub decode_elements-encode_elements :
    {S R : Type 0} (base_exists : S → ℕ → Bool) (sender : MsgSet S) (receiver : MsgSet R)
    (msgdata : Option (MsgData R)) (params : Params R) (dst : ℕ) (es : List ElemData) (s : S)
    (m : Mem)
    → Handled sender es
    → (s' : S) × (m' : Mem) × (len : ℕ) × (xs : List Elem) × (encode_elements base_exists sender dst
          es
          (s, m, 0)
        ≡ some (s', m', len))
      × Selected sender es xs
      × Laid m' dst xs (dst + len)
      × (decode_elements receiver msgdata m' params dst len
          ≡ foldl (decode_at receiver msgdata m') params (offsets dst xs))
decode_elements-encode_elements base_exists sender receiver msgdata params dst es s m h =
    let e = encode_elements-Laid base_exists sender dst es s m h in
    let laid : Laid e.m' dst e.elems (dst + e.len') =
      subst (λ n. Laid e.m' n e.elems (dst + e.len')) (omega arith) e.laid in
    (
      e.s',
      e.m',
      e.len',
      e.elems,
      e.returns,
      e.chosen,
      laid,
      decode_elements-Laid receiver msgdata e.m' params dst e.len' e.elems laid,
    )
