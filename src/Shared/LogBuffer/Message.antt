-- ===== src/Shared/LogBuffer/Message.antt =====
-- shared/src/log_buffer.rs: `MessageVisitor`, which takes the message out of an event's fields.
-- `none` is a panic: the range of `self.message[1..self.message.len() - 1]` starts behind its end.
use npt.Prelude.{
  ℕ, suc, ◌-◌, ◌≡◌, ◌≢◌, ◌↔◌, refl, ap, List, [], ◌∷◌, ◌++◌, Option, none, some, length, take, drop,
  ltb, ◌==◌, if◌then◌else◌, arith, Bool, true, false, ◌&&◌, take-append, length-append,
}

abbrev pub quote : ℕ
quote = 34

abbrev pub starts_with : ℕ → List ℕ → Bool
starts_with c [] = false
starts_with c (x ∷ xs) = x == c

abbrev pub ends_with : ℕ → List ℕ → Bool
ends_with c [] = false
ends_with c (x ∷ []) = x == c
ends_with c (x ∷ y ∷ ys) = ends_with c (y ∷ ys)

-- `&s[1..s.len() - 1]`
abbrev pub inner : List ℕ → Option (List ℕ)
inner s = if ltb (length s - 1) 1 then none else some (take (length s - 1 - 1) (drop 1 s))

-- A field of an event: its name is "message" or another, and its value came by `record_debug`, with
-- the text that `{:?}` gives, or by `record_str`.
pub data Field : Type 0 where
  debug_field : Bool → List ℕ → Field
  str_field : Bool → List ℕ → Field

-- `record_debug` and `record_str` of the visitor that holds the text `message`.
unfoldable pub visit : Field → List ℕ → Option (List ℕ)
visit (debug_field is_message text) message =
    if is_message
    then if starts_with quote text && ends_with quote text then inner text else some text
    else some message
visit (str_field is_message text) message = if is_message then some text else some message

-- `event.record(&mut visitor)` from the empty message.
abbrev pub then_visit : Field → Option (List ℕ) → Option (List ℕ)
then_visit f none = none
then_visit f (some message) = visit f message

unfoldable pub record_fields : List Field → Option (List ℕ) → Option (List ℕ)
record_fields [] message = message
record_fields (f ∷ fs) message = record_fields fs (then_visit f message)

ends_with-append : (c : ℕ) (xs : List ℕ) → ends_with c (xs ++ c ∷ []) ≡ true
ends_with-append c [] = ground arith
ends_with-append c (x ∷ []) = ground arith
ends_with-append c (x ∷ y ∷ ys) = ends_with-append c (y ∷ ys)

inner_quoted : (text : List ℕ) → inner (quote ∷ text ++ quote ∷ []) ≡ some text
inner_quoted text =
    let size = length-append text (quote ∷ []) in
    let cut : suc (length (text ++ quote ∷ [])) - 1 - 1 ≡ length text = omega arith in
    let room : ltb (suc (length (text ++ quote ∷ [])) - 1) 1 ≡ false = ground arith in
    rw (room, cut) (ap some (take-append (length text) text (quote ∷ []) refl))

inner_two : (x y : ℕ) (ys : List ℕ) → inner (x ∷ y ∷ ys) ≢ none
inner_two x y ys h = ground arith

-- A value that `{:?}` prints between quotes is recorded without them, whatever came before.
visit_quoted :
    (text message : List ℕ)
    → visit (debug_field true (quote ∷ text ++ quote ∷ [])) message ≡ some text
unfolding visit
visit_quoted text message = rw (ends_with-append quote (quote ∷ text)) (inner_quoted text)

-- Recording a field panics exactly if it is the message, recorded by `record_debug`, and its text is
-- a single quote: then the text both starts and ends with a quote, and has no inside.
pub visit_panics :
    (f : Field) (message : List ℕ) → (visit f message ≡ none) ↔ (f ≡ debug_field true (quote ∷ []))
unfolding visit
visit_panics (str_field true text) message = ((λ h. cc), (λ h. cc))
visit_panics (str_field false text) message = ((λ h. cc), (λ h. cc))
visit_panics (debug_field false text) message = ((λ h. cc), (λ h. cc))
visit_panics (debug_field true []) message = ((λ h. cc), (λ h. cc))
visit_panics (debug_field true (x ∷ [])) message = ((λ h. ground arith), (λ h. ground arith))
visit_panics (debug_field true (x ∷ y ∷ ys)) message =
    ((λ h. ground (arith, inner_two x y ys)), (λ h. cc))
