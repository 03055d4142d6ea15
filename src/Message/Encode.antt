-- ===== src/Message/Encode.antt =====
-- `cw_encode_elements` of src/cw/message.c: the message elements it writes lie one after the other.
use mathlib.Core.Bool.{false≢true}
use actube.Base.{
  ℕ, ◌+◌, ◌*◌, ◌^◌, ◌<◌, ◌≡◌, refl, ap, ap₂, ◌∙◌, subst, inl, inr, arith, Mem, Bool, true, false,
  not, ◌&&◌, Option, none, some, List, [], ◌∷◌, Bool-cases, get_word,
}
use actube.MsgSet.{ElemData, ElemHandler, MsgSet}
use actube.Message.{encode_with, encode_element, encode_elements}
use actube.Message.Elems.{Elem, IsElem, Laid, nil, cons}

-- What a `put` callback promises: it writes one element with the given id at its destination, says
-- how many bytes that took, and leaves everything in front of it alone.
pub record Put (id : ℕ) (m : Mem) (dst : ℕ) (m' : Mem) (l : ℕ) : Type 0 where
  pub elem : Elem
  pub same_id : elem.id ≡ id
  pub size : l ≡ 4 + elem.len
  pub written : IsElem m' dst elem
  pub front : (i : ℕ) → i < dst → m' i ≡ m i

IsElem-ext :
    (m k : Mem) (p : ℕ) (x : Elem)
    → ((i : ℕ) → i < p + 4 + x.len → k i ≡ m i)
    → IsElem m p x
    → IsElem k p x
unfolding get_word
IsElem-ext m k p x same h = record {
  has_id =
      ap₂ (λ a b. a * 2 ^ 8 + b) (same p (omega arith)) (same (p + 1) (omega arith)) ∙ h.has_id;
  has_len =
      ap₂ (λ a b. a * 2 ^ 8 + b) (same (p + 2) (omega arith)) (same (p + 2 + 1) (omega arith))
      ∙ h.has_len;
  has_content = λ j lt. same (p + 4 + j) (omega arith) ∙ h.has_content j lt;
}

module _ {S : Type 0} (msgset : MsgSet S) where
  abbrev pub HandledBy : ElemData → ElemHandler S → Type 0
  HandledBy e handler = msgset.get_elemhandler e.proto e.vendor e.id ≡ some handler

  -- Every element of the list has a handler, whose `put`, if there is one, keeps its promise.
  pub data Handled : List ElemData → Type 0 where
    none_left : Handled []
    no_put :
        {e : ElemData} {es : List ElemData} (handler : ElemHandler S)
        → HandledBy e handler
        → handler.put ≡ none
        → Handled es
        → Handled (e ∷ es)
    with_put :
        {e : ElemData} {es : List ElemData} (handler : ElemHandler S)
        (put : S → Mem → ℕ → S × Mem × ℕ)
        → HandledBy e handler
        → handler.put ≡ some put
        → ((s : S) (m : Mem) (dst : ℕ) → Put e.id m dst (put s m dst).1 (put s m dst).2)
        → Handled es
        → Handled (e ∷ es)

  -- The written elements are those of the list, in its order, where only elements that are not
  -- mandatory or that cannot be written may be missing.
  pub data Selected : List ElemData → List Elem → Type 0 where
    none_selected : Selected [] []
    not_mandatory :
        {e : ElemData} {es : List ElemData} {xs : List Elem}
        → e.mand ≡ false
        → Selected es xs
        → Selected (e ∷ es) xs
    not_writable :
        {e : ElemData} {es : List ElemData} {xs : List Elem} (handler : ElemHandler S)
        → HandledBy e handler
        → handler.put ≡ none
        → Selected es xs
        → Selected (e ∷ es) xs
    selected :
        {e : ElemData} {es : List ElemData} {x : Elem} {xs : List Elem}
        → x.id ≡ e.id
        → Selected es xs
        → Selected (e ∷ es) (x ∷ xs)

  pub record Encoded (dst : ℕ) (elements_list : List ElemData) (m : Mem) (len : ℕ)
      (out : Option (S × Mem × ℕ)) : Type 0 where
    pub s' : S
    pub m' : Mem
    pub len' : ℕ
    pub elems : List Elem
    pub returns : out ≡ some (s', m', len')
    pub laid : Laid m' (dst + len) elems (dst + len')
    pub chosen : Selected elements_list elems
    pub front : (i : ℕ) → i < dst + len → m' i ≡ m i

module _ {S : Type 0} (base_exists : S → ℕ → Bool) (msgset : MsgSet S) (dst : ℕ) where
  skip :
      (e : ElemData) (es : List ElemData) (s : S) (m : Mem) (len : ℕ)
      → encode_element base_exists msgset dst e (s, m, len) ≡ some (s, m, len)
      → ((xs : List Elem) → Selected msgset es xs → Selected msgset (e ∷ es) xs)
      → Encoded msgset dst es m len (encode_elements base_exists msgset dst es (s, m, len))
      → Encoded msgset dst
          (e ∷ es)
          m
          len
          (encode_elements base_exists msgset dst (e ∷ es) (s, m, len))
  unfolding encode_elements
  skip e es s m len same choose r = record {
    s' = r.s';
    m' = r.m';
    len' = r.len';
    elems = r.elems;
    returns = rw (encode_elements, same) r.returns;
    laid = r.laid;
    chosen = choose r.elems r.chosen;
    front = r.front;
  }

  write :
      (e : ElemData) (es : List ElemData) (s s1 : S) (m m1 : Mem) (len l : ℕ)
      → encode_element base_exists msgset dst e (s, m, len) ≡ some (s1, m1, len + l)
      → Put e.id m (dst + len) m1 l
      → Encoded msgset dst es m1
          (len + l)
          (encode_elements base_exists msgset dst es (s1, m1, len + l))
      → Encoded msgset dst
          (e ∷ es)
          m
          len
          (encode_elements base_exists msgset dst (e ∷ es) (s, m, len))
  unfolding encode_elements
  write e es s s1 m m1 len l one p r = record {
    s' = r.s';
    m' = r.m';
    len' = r.len';
    elems = p.elem ∷ r.elems;
    returns = rw (encode_elements, one) r.returns;
    laid =
        cons
          (IsElem-ext m1 r.m' (dst + len) p.elem (λ i lt. r.front i (omega (arith, p.size)))
            p.written)
          (subst (λ n. Laid r.m' n r.elems (dst + r.len')) (omega (arith, p.size)) r.laid);
    chosen = selected p.same_id r.chosen;
    front = λ i lt. r.front i (omega arith) ∙ p.front i lt;
  }

  module _ (handler : ElemHandler S) (e : ElemData) (s : S) (m : Mem) (len : ℕ) where
    handled_by :
        {out : S × Mem × ℕ}
        → HandledBy msgset e handler
        → encode_with base_exists handler dst e (s, m, len) ≡ out
        → encode_element base_exists msgset dst e (s, m, len) ≡ some out
    unfolding encode_element
    handled_by found same = rw (encode_element, found) (ap some same)

    without : handler.put ≡ none → encode_with base_exists handler dst e (s, m, len) ≡ (s, m, len)
    unfolding encode_with
    without absent = rw (encode_with, absent) refl

    module _ {put : S → Mem → ℕ → S × Mem × ℕ} (present : handler.put ≡ some put) where
      skips :
          (not e.mand && not (base_exists s handler.key)) ≡ true
          → encode_with base_exists handler dst e (s, m, len) ≡ (s, m, len)
      unfolding encode_with
      skips skipped = rw (encode_with, present, skipped) refl

      puts :
          (not e.mand && not (base_exists s handler.key)) ≡ false
          → encode_with base_exists handler dst e (s, m, len)
            ≡ ((put s m (dst + len)).0, (put s m (dst + len)).1, len + (put s m (dst + len)).2)
      unfolding encode_with
      puts kept = rw (encode_with, present, kept) refl

  encode_from :
      (es : List ElemData) (s : S) (m : Mem) (len : ℕ)
      → Handled msgset es
      → Encoded msgset dst es m len (encode_elements base_exists msgset dst es (s, m, len))
  encode_from _ s m len none_left = record {
    s' = s;
    m' = m;
    len' = len;
    elems = [];
    returns = unfold encode_elements in refl;
    laid = nil;
    chosen = none_selected;
    front = λ i lt. refl;
  }
  encode_from _ s m len (no_put {e} {es} handler found absent rest) =
      skip e es s m len (handled_by handler e s m len found (without handler e s m len absent))
        (λ xs. not_writable handler found absent) (encode_from es s m len rest)
  encode_from _ s m len (with_put {e} {es} handler put found present promise rest) =
      elim (Bool-cases (not e.mand && not (base_exists s handler.key))) [
        | inl skipped ↦
            skip e es s m len
              (handled_by handler e s m len found (skips handler e s m len present skipped))
              (λ xs. not_mandatory (optional _ e.mand skipped)) (encode_from es s m len rest)
        | inr kept ↦
            let r = put s m (dst + len) in
            write e es s r.0 m r.1 len r.2
              (handled_by handler e s m len found (puts handler e s m len present kept))
              (promise s m (dst + len)) (encode_from es r.0 r.1 (len + r.2) rest)
      ]
    where
      optional : (b mand : Bool) → (not mand && b) ≡ true → mand ≡ false
      optional b true h = absurd (false≢true h)
      optional b false h = refl

  -- Every element of the message has a handler, and its handlers write one element each. Then
  -- `cw_encode_elements` returns the number of bytes of a sequence of elements that lie one after the
  -- other from the destination on: those of the message's list in its order, without some that are
  -- not mandatory or have no `put`. The bytes in front of the destination stay as they were.
  pub encode_elements-Laid :
      (es : List ElemData) (s : S) (m : Mem)
      → Handled msgset es
      → Encoded msgset dst es m 0 (encode_elements base_exists msgset dst es (s, m, 0))
  encode_elements-Laid es s m h = encode_from es s m 0 h
