-- ===== src/Application/DriveResource/Extraction.antt =====
-- The identifier that is extracted from a link is one that is left as it is.
use cpp_mirror_leech_bot.Prelude.{
  ℕ, ◌≡◌, ◌⊎◌, ap, if_elim, ◌==◌, false, refl, inl, inr, Bool-cases, true, none, Option-cases, [],
  ◌∷◌, arith, is_empty, Bytes, starts_with, All,
}
use cpp_mirror_leech_bot.Application.DriveResource.{
  is_id_char, id_run, Lead, literal, file_lead, folder_lead, query_lead, group_at, regex_search,
  extract_drive_id,
}

abbrev IsId : Bytes → Type 0
IsId s = All (λ c. is_id_char c ≡ true) s

id_run-IsId : (s : Bytes) → IsId (id_run s)
unfolding id_run
id_run-IsId [] = tt
id_run-IsId (c ∷ s) = elim (Bool-cases (is_id_char c)) [
  | inl e ↦ rw e (e, id_run-IsId s)
  | inr e ↦ rw e tt
]

group_at-IsId : (lead : Lead) (s : Bytes) → IsId (group_at lead s)
unfolding group_at
group_at-IsId lead s = elim (Option-cases (lead s)) [
  | inl e ↦ rw (group_at, e) tt
  | inr (rest, e) ↦ rw (group_at, e) (id_run-IsId rest)
]

regex_search-IsId : (lead : Lead) (s : Bytes) → IsId (regex_search lead s)
unfolding regex_search
regex_search-IsId lead [] = tt
regex_search-IsId lead (c ∷ s) = elim (Bool-cases (is_empty (group_at lead (c ∷ s)))) [
  | inl e ↦ rw e (regex_search-IsId lead s)
  | inr e ↦ rw e (group_at-IsId lead (c ∷ s))
]

-- A lead that no identifier starts.
abbrev IsForeign : Lead → Type 0
IsForeign lead = (c : ℕ) (s : Bytes) → is_id_char c ≡ true → lead (c ∷ s) ≡ none

regex_search-none : (lead : Lead) (s : Bytes) → IsForeign lead → IsId s → regex_search lead s ≡ []
unfolding regex_search group_at
regex_search-none lead [] h ids = refl
regex_search-none lead (c ∷ s) h ids =
    let (first, rest) = ids in rw (group_at, h c s first) (regex_search-none lead s h rest)

-- A character that is none of an identifier's.
other_char : (c d : ℕ) → is_id_char c ≡ false → is_id_char d ≡ true → (c == d) ≡ false
unfolding is_id_char
other_char c d h k = elim (Bool-cases (c == d)) [ inl e ↦ ground arith | inr e ↦ e ]

other_char_after : (c d : ℕ) → is_id_char c ≡ false → is_id_char d ≡ true → (d == c) ≡ false
unfolding is_id_char
other_char_after c d h k = elim (Bool-cases (d == c)) [ inl e ↦ ground arith | inr e ↦ e ]

file-IsForeign : IsForeign file_lead
unfolding file_lead literal starts_with is_id_char
file-IsForeign c s h = rw (other_char 47 c refl h) refl

folder-IsForeign : IsForeign folder_lead
unfolding folder_lead literal starts_with is_id_char
folder-IsForeign c s h = rw (other_char 47 c refl h) refl

query-IsForeign : IsForeign query_lead
unfolding query_lead is_id_char
query-IsForeign c s h = rw (other_char_after b'?' c refl h, other_char_after b'&' c refl h) refl

-- An identifier is extracted from itself.
extract_drive_id_bare : (s : Bytes) → IsId s → extract_drive_id s ≡ s
unfolding extract_drive_id
extract_drive_id_bare s ids =
    rw
      (
        regex_search-none file_lead s file-IsForeign ids,
        regex_search-none folder_lead s folder-IsForeign ids,
        regex_search-none query_lead s query-IsForeign ids,
      )
      refl

-- What is extracted is an identifier, or the input.
extracted : (input : Bytes) → IsId (extract_drive_id input) ⊎ (extract_drive_id input ≡ input)
unfolding extract_drive_id
extracted input =
    let Q = λ (r : Bytes). IsId r ⊎ (r ≡ input) in
    if_elim Q _ _ _ (inl (regex_search-IsId file_lead input)) (
      if_elim Q _ _ _ (inl (regex_search-IsId folder_lead input))
        (if_elim Q _ _ _ (inl (regex_search-IsId query_lead input)) (inr refl)))

-- Extracting again, from what was extracted, changes nothing.
pub extract_drive_id_twice :
    (input : Bytes) → extract_drive_id (extract_drive_id input) ≡ extract_drive_id input
extract_drive_id_twice input = elim (extracted input) [
  | inl ids ↦ extract_drive_id_bare (extract_drive_id input) ids
  | inr e ↦ ap extract_drive_id e
]
