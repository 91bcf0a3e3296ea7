-- ===== src/Kvrocks/Slots/RoundTrip.antt =====
-- The topology that is written to the status is read back: `SlotsToInt` undoes `SlotsToString`.
use kvrocks_operator.Base.{
  ℕ, zero, suc, ◌+◌, ◌-◌, ◌≤◌, ◌<◌, ◌≡◌, refl, sym, ap, ◌∙◌, List, [], ◌∷◌, ◌++◌, append_assoc, All,
  arith, ◌==◌, nat_eq, Bool-cases, inl, inr, split, split-append, split-Lacks,
}
use kvrocks_operator.Base.Decimal.{print, atoi-print, max_int, print-Lacks}
use kvrocks_operator.Kvrocks.Slots.{
  sort, run_text, runs, runs_of, count_up, range_of, slots_to_string, slots_to_int,
}
use kvrocks_operator.Kvrocks.Slots.Order.{sort-All}

count_up-suc : (n b : ℕ) → count_up (suc n) b ≡ count_up n b ++ (b + n) ∷ []
unfolding count_up
count_up-suc zero b = ground arith
count_up-suc (suc n) b = ground (arith, count_up-suc n (b + 1))

count_up-one : (b n : ℕ) → n ≡ 1 → count_up n b ≡ b ∷ []
unfolding count_up
count_up-one b n e = rw e

range_of-run_text :
    (head last : ℕ)
    → head ≤ last
    → last ≤ max_int
    → range_of (split b'-' (run_text head last)) ≡ count_up (last + 1 - head) head
unfolding run_text range_of
range_of-run_text head last h k = elim (Bool-cases (head == last)) [
  | inl e ↦
      rw
        (
          e,
          split-Lacks b'-' (print head) (print-Lacks b'-' head (omega arith)),
          atoi-print head (omega arith),
        )
        (sym (count_up-one head (last + 1 - head) (ground arith)))
  | inr e ↦ rw (
    e,
    split-append b'-' (print head) (print last) (print-Lacks b'-' head (omega arith)),
    split-Lacks b'-' (print last) (print-Lacks b'-' last (omega arith)),
    atoi-print head (omega arith),
    atoi-print last k,
  )
]

count_up-longer :
    (head previous s n : ℕ)
    → head ≤ previous
    → s ≡ previous + 1
    → n ≡ s + 1 - head
    → count_up n head ≡ count_up (previous + 1 - head) head ++ s ∷ []
count_up-longer head previous s n h e p =
    let longer : n ≡ suc (previous + 1 - head) = omega arith in
    let last : head + (previous + 1 - head) ≡ s = omega arith in
    rw longer (rw (← last) (count_up-suc (previous + 1 - head) head))

count_up-single : (s : ℕ) → count_up (s + 1 - s) s ≡ s ∷ []
count_up-single s = count_up-one s (s + 1 - s) (omega arith)

runs_lem :
    (head previous : ℕ) (slots : List ℕ)
    → head ≤ previous
    → previous ≤ max_int
    → All (λ s. s ≤ max_int) slots
    → slots_to_int (runs head previous slots) ≡ count_up (previous + 1 - head) head ++ slots
unfolding runs slots_to_int
runs_lem head previous [] h k b = ap (λ l. l ++ []) (range_of-run_text head previous h k)
runs_lem head previous (s ∷ slots) h k (bs, b) = elim (Bool-cases (s == previous + 1)) [
  | inl e ↦ rw e (
      runs_lem head s slots (ground arith) bs b
      ∙ ap (λ l. l ++ slots) (count_up-longer head previous s (s + 1 - head) h (ground arith) refl)
      ∙ append_assoc (count_up (previous + 1 - head) head) (s ∷ []) slots)
  | inr e ↦ rw (
    e,
    range_of-run_text head previous h k,
    runs_lem s s slots (omega arith) bs b,
    count_up-single s,
  )
]

runs_of_lem : (slots : List ℕ) → All (λ s. s ≤ max_int) slots → slots_to_int (runs_of slots) ≡ slots
unfolding runs_of slots_to_int
runs_of_lem [] b = refl
runs_of_lem (s ∷ slots) (bs, b) =
    runs_lem s s slots (omega arith) bs b ∙ ap (λ l. l ++ slots) (count_up-single s)

fits : (slots : List ℕ) → All (λ s. s < max_int) slots → All (λ s. s ≤ max_int) slots
fits [] h = tt
fits (s ∷ slots) (below, h) = (omega (arith, below), fits slots h)

-- Reading a printed slot list gives the list back in ascending order, duplicates kept, for every
-- list of slots below the largest int.
pub slots_to_int-slots_to_string :
    (slots : List ℕ)
    → All (λ s. s < max_int) slots
    → slots_to_int (slots_to_string slots) ≡ sort slots
unfolding slots_to_string
slots_to_int-slots_to_string slots b =
    runs_of_lem (sort slots) (fits (sort slots) (sort-All (λ s. s < max_int) slots b))
