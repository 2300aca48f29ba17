-- ===== src/Shared/LogBuffer/History.antt =====
-- shared/src/log_buffer.rs: the buffer and the file channel against the history of calls.
use npt.Prelude.{
  ℕ, ◌+◌, ◌-◌, ◌≤◌, max, ◌≡◌, refl, ap, sym, ◌∙◌, List, [], ◌∷◌, ◌++◌, some, length, take, drop,
  leb, if◌then◌else◌, reverse, arith, length-append, length-drop, drop-append_le, drop-drop,
  drop-nil, take_all, take-append, take-append-drop, length-reverse, append-nil, append_assoc, min,
  Bool-cases, inl, inr, Bool, true, false, leb→le, leb→gt,
}
use native.Mathlib.Decide.{dec_le}
use mathlib.Core.List.{reverse-append, reverse-reverse}
use npt.Shared.LogBuffer.{
  LogEntry, LogBuffer, new, new_with_file, add_entry, get_entries, get_latest, clear, len, send,
}

-- The last `n` items.
abbrev pub last {ℓ} : {A : Type ℓ} → ℕ → List A → List A
last n xs = drop (length xs - n) xs

pub data Op : Type 0 where
  add : LogEntry → Op
  wipe : Op

abbrev pub apply : Op → LogBuffer → LogBuffer
apply (add e) b = add_entry e b
apply wipe b = clear b

abbrev pub run : List Op → LogBuffer → LogBuffer
run [] b = b
run (o ∷ os) b = run os (apply o b)

-- What was logged since the buffer was last cleared, in the order of logging, behind `past`.
abbrev pub since_clear : List LogEntry → List Op → List LogEntry
since_clear past [] = past
since_clear past (add e ∷ os) = since_clear (past ++ e ∷ []) os
since_clear past (wipe ∷ os) = since_clear [] os

-- Everything that was logged.
abbrev pub logged : List Op → List LogEntry
logged [] = []
logged (add e ∷ os) = e ∷ logged os
logged (wipe ∷ os) = logged os

-- One more item keeps the last `max m 1` of them, by the code's own test on the length.
last-push {ℓ} :
    {A : Type ℓ} (m : ℕ) (xs ys : List A) (x : A)
    → ys ≡ last (max m 1) xs
    → (if leb m (length ys) then drop 1 ys else ys) ++ x ∷ [] ≡ last (max m 1) (xs ++ x ∷ [])
last-push {A = A} m [] ys x h =
    let none_yet = h ∙ drop-nil (0 - max m 1) in
    rw none_yet (ap (λ l. l ++ x ∷ []) (same (leb m 0)) ∙ ap (λ k. drop k (x ∷ [])) (start m))
  where
    start : (m : ℕ) → 0 ≡ 1 - max m 1
    start m = omega arith

    same : (b : Bool) → ◌≡◌ {A = List A} (if b then [] else []) []
    same true = refl
    same false = refl
last-push m (w ∷ ws) ys x h =
    let xs = w ∷ ws in
    let c = max m 1 in
    let size = ap length h ∙ length-drop (length xs - c) xs in
    elim (Bool-cases (leb m (length ys))) [
      | inl full ↦ rw full (
          ap (λ l. drop 1 l ++ x ∷ []) h
          ∙ ap (λ l. l ++ x ∷ []) (drop-drop 1 (length xs - c) xs)
          ∙ sym (drop-append_le (length xs - c + 1) xs (x ∷ []) (omega arith))
          ∙ ap (λ k. drop k (xs ++ x ∷ []))
              (omega (arith, leb→le m (length ys) full, length-append xs (x ∷ []))))
      | inr free ↦ rw free (
          ap (λ l. l ++ x ∷ []) h
          ∙ sym (drop-append_le (length xs - c) xs (x ∷ []) (omega arith))
          ∙ ap (λ k. drop k (xs ++ x ∷ []))
              (omega (arith, leb→gt m (length ys) free, length-append xs (x ∷ []))))
    ]

add_entry-last :
    (past : List LogEntry) (e : LogEntry) (b : LogBuffer)
    → b.entries ≡ last (max b.max_size 1) past
    → (add_entry e b).entries ≡ last (max b.max_size 1) (past ++ e ∷ [])
unfolding add_entry
add_entry-last past e b h = last-push b.max_size past b.entries e h

run-last :
    (os : List Op) (past : List LogEntry) (b : LogBuffer)
    → b.entries ≡ last (max b.max_size 1) past
    → (run os b).entries ≡ last (max b.max_size 1) (since_clear past os)
unfolding add_entry clear
run-last [] past b h = h
run-last (add e ∷ os) past b h =
    run-last os (past ++ e ∷ []) (add_entry e b) (add_entry-last past e b h)
run-last (wipe ∷ os) past b h = run-last os [] (clear b) (sym (drop-nil (0 - max b.max_size 1)))

-- From a new buffer, after any entries and clearings, the buffer holds the last entries since it was
-- last cleared, oldest first: as many as its size allows, but never fewer than one.
pub get_entries-run :
    (max_size : ℕ) (os : List Op)
    → get_entries (run os (new max_size)) ≡ last (max max_size 1) (since_clear [] os)
unfolding get_entries new
get_entries-run max_size os = run-last os [] (new max_size) (sym (drop-nil (0 - max max_size 1)))

last-length {ℓ} : {A : Type ℓ} (n : ℕ) (xs : List A) → length (last n xs) ≤ n
last-length n xs = omega (arith, length-drop (length xs - n) xs)

-- A buffer of size at least 1 never holds more entries than its size.
pub len-run : (max_size : ℕ) (os : List Op) → 1 ≤ max_size → len (run os (new max_size)) ≤ max_size
unfolding len new
len-run max_size os h =
    let same = run-last os [] (new max_size) (sym (drop-nil (0 - max max_size 1))) in
    omega (arith, ap length same, last-length {0} (max max_size 1) (since_clear [] os))

take-reverse {ℓ} : {A : Type ℓ} (n : ℕ) (xs : List A) → take n (reverse xs) ≡ reverse (last n xs)
take-reverse n xs = elim (dec_le n (length xs)) [
  | yes p ↦
      ap (λ l. take n (reverse l)) (sym (take-append-drop (length xs - n) xs))
      ∙ ap (take n) (reverse-append (take (length xs - n) xs) (last n xs))
      ∙ take-append n (reverse (last n xs)) (reverse (take (length xs - n) xs))
          (omega (arith, length-reverse (last n xs), length-drop (length xs - n) xs))
  | no p ↦
      take_all n (reverse xs) (omega (arith, length-reverse xs))
      ∙ let none_dropped : 0 ≡ length xs - n = omega arith in
        ap (λ k. reverse (drop k xs)) none_dropped
]

-- After any entries and clearings, the latest `count` entries are the last ones since the buffer was
-- last cleared, oldest first: as many as are asked for and the size allows.
get_latest-run :
    (max_size count : ℕ) (os : List Op)
    → get_latest count (run os (new max_size))
      ≡ last (min count (max max_size 1)) (since_clear [] os)
unfolding get_latest new
get_latest-run max_size n os =
    let kept = max max_size 1 in
    let past = since_clear [] os in
    let same = run-last os [] (new max_size) (sym (drop-nil (0 - kept))) in
    ap reverse (take-reverse n (run os (new max_size)).entries)
    ∙ reverse-reverse _
    ∙ ap (last n) same
    ∙ drop-drop (length (last kept past) - n) (length past - kept) past
    ∙ ap (λ k. drop k past) (omega (arith, length-drop (length past - kept) past))

run-sent :
    (os : List Op) (b : LogBuffer) (before : List LogEntry)
    → b.file_sender ≡ some (record { sent = before; receiving = true })
    → (run os b).file_sender ≡ some (record { sent = before ++ logged os; receiving = true })
unfolding add_entry clear
run-sent [] b before h =
    h ∙ ap (λ l. some (record { sent = l; receiving = true })) (sym (append-nil before))
run-sent (add e ∷ os) b before h =
    run-sent os (add_entry e b) (before ++ e ∷ []) (ap (send e) h)
    ∙ ap (λ l. some (record { sent = l; receiving = true }))
        (append_assoc before (e ∷ []) (logged os))
run-sent (wipe ∷ os) b before h = run-sent os (clear b) before h

-- As long as the task of the log file receives, the file is sent every entry that is ever logged, in
-- order and once: neither the size of the buffer nor a clearing loses one.
pub file-run :
    (max_size : ℕ) (os : List Op)
    → (run os (new_with_file max_size true)).file_sender
      ≡ some (record { sent = logged os; receiving = true })
unfolding new_with_file
file-run max_size os = run-sent os (new_with_file max_size true) [] refl
