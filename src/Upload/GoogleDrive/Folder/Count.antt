-- ===== src/Upload/GoogleDrive/Folder/Count.antt =====
-- The count of a folder is the count of its tree.
use cpp_mirror_leech_bot.Prelude.{
  ℕ, zero, suc, ◌+◌, ◌%◌, ◌^◌, ◌≤◌, ◌≡◌, refl, ap, ◌∙◌, Bool, false, Option, none, some, List, [],
  ◌∷◌, arith, is_empty, Bytes,
}
use cpp_mirror_leech_bot.Prelude.Integers.{pos}
use cpp_mirror_leech_bot.Core.Action.{Action}
use cpp_mirror_leech_bot.Core.Error.{ok}
use cpp_mirror_leech_bot.Core.Json.{Json}
use cpp_mirror_leech_bot.Http.{HttpRequest}
use cpp_mirror_leech_bot.Upload.GoogleDrive.{Drive}
use cpp_mirror_leech_bot.Upload.GoogleDrive.Folder.{
  subfolder, file, child_of, bits_64, Totals, count_child, count_children, count_folders,
}

mutual
  -- A file, of a size where Drive knows one, or a folder with its identifier.
  pub data Node : Type 0 where
    sized : ℕ → Node
    unsized : Node
    folder : Bytes → Forest → Node

  pub data Forest : Type 0 where
    empty : Forest
    grow : Node → Forest → Forest

unfoldable mutual
  pub files_of_node : Node → ℕ
  files_of_node (sized n) = 1
  files_of_node unsized = 1
  files_of_node (folder id below) = files_in below

  -- The files of a forest, those in its folders among them.
  pub files_in : Forest → ℕ
  files_in empty = 0
  files_in (grow node rest) = files_of_node node + files_in rest

unfoldable mutual
  pub folders_of_node : Node → ℕ
  folders_of_node (sized n) = 0
  folders_of_node unsized = 0
  folders_of_node (folder id below) = suc (folders_in below)

  pub folders_in : Forest → ℕ
  folders_in empty = 0
  folders_in (grow node rest) = folders_of_node node + folders_in rest

unfoldable mutual
  pub bytes_of_node : Node → ℕ
  bytes_of_node (sized n) = n
  bytes_of_node unsized = 0
  bytes_of_node (folder id below) = bytes_in below

  pub bytes_in : Forest → ℕ
  bytes_in empty = 0
  bytes_in (grow node rest) = bytes_of_node node + bytes_in rest

-- What the list of a folder shows of a forest.
abbrev ShowsNode : Json → Node → Type 0
ShowsNode v (sized n) = child_of v ≡ file (some (pos n))
ShowsNode v unsized = child_of v ≡ file none
ShowsNode v (folder id below) = (child_of v ≡ subfolder id) × (is_empty id ≡ false)

abbrev pub Shows : List Json → Forest → Type 0
Shows [] empty = Unit {0}
Shows [] (grow node rest) = ⊥
Shows (v ∷ vs) empty = ⊥
Shows (v ∷ vs) (grow node rest) = ShowsNode v node × Shows vs rest

-- Whatever was asked before, the list of a folder shows its forest.
abbrev pub IsListed : (Bytes → Action Drive (Option (List Json))) → Bytes → Forest → Type 0
IsListed list id f =
    (d : Drive) → (docs : List Json) × ((list id d).1 ≡ ok (some docs)) × Shows docs f

unfoldable mutual
  pub IsListedNode : (Bytes → Action Drive (Option (List Json))) → Node → Type 0
  IsListedNode list (sized n) = Unit {0}
  IsListedNode list unsized = Unit {0}
  IsListedNode list (folder id below) = IsListed list id below × IsListedBelow list below

  -- So do the lists of the folders of a forest.
  pub IsListedBelow : (Bytes → Action Drive (Option (List Json))) → Forest → Type 0
  IsListedBelow list empty = Unit {0}
  IsListedBelow list (grow node rest) = IsListedNode list node × IsListedBelow list rest

-- The folders that wait, with their forests.
abbrev Waiting : Type 0
Waiting = List (Bytes × Forest)

abbrev ids : Waiting → List Bytes
ids [] = []
ids ((id, f) ∷ rest) = id ∷ ids rest

-- The totals of these counts, wrapped around.
abbrev pub totals : ℕ → ℕ → ℕ → Totals
totals a b c = record { files = a % 2 ^ 32; folders = b % 2 ^ 32; total_bytes = c % 2 ^ 64 }

abbrev wrapped : ℕ → ℕ → ℕ → Totals
wrapped a b c = record { files = a; folders = b; total_bytes = c }

wrapped_eq : (a a' b b' c c' : ℕ) → a ≡ a' → b ≡ b' → c ≡ c' → wrapped a b c ≡ wrapped a' b' c'
wrapped_eq a a' b b' c c' h k l = rw (h, k, l) refl

-- One more, and a number of bytes more, wrapped around once or twice.
wrap_suc : (a : ℕ) → suc (a % 2 ^ 32) % 2 ^ 32 ≡ suc a % 2 ^ 32
wrap_suc a = omega arith

wrap_plus : (c n : ℕ) → (c % 2 ^ 64 + n % 2 ^ 64) % 2 ^ 64 ≡ (c + n) % 2 ^ 64
wrap_plus c n = omega arith

totals_eq : (a a' b b' c c' : ℕ) → a ≡ a' → b ≡ b' → c ≡ c' → totals a b c ≡ totals a' b' c'
totals_eq a a' b b' c c' h k l = rw (h, k, l) refl

-- The files and the bytes of a forest that are not in its folders, and the number of these.
abbrev files_at : Forest → ℕ
files_at empty = 0
files_at (grow (sized n) rest) = suc (files_at rest)
files_at (grow unsized rest) = suc (files_at rest)
files_at (grow (folder id below) rest) = files_at rest

abbrev folders_at : Forest → ℕ
folders_at empty = 0
folders_at (grow (sized n) rest) = folders_at rest
folders_at (grow unsized rest) = folders_at rest
folders_at (grow (folder id below) rest) = suc (folders_at rest)

abbrev bytes_at : Forest → ℕ
bytes_at empty = 0
bytes_at (grow (sized n) rest) = n + bytes_at rest
bytes_at (grow unsized rest) = bytes_at rest
bytes_at (grow (folder id below) rest) = bytes_at rest

abbrev push : Forest → Waiting → Waiting
push empty w = w
push (grow (sized n) rest) w = push rest w
push (grow unsized rest) w = push rest w
push (grow (folder id below) rest) w = push rest ((id, below) ∷ w)

count_children_lem :
    (docs : List Json) (f : Forest) (a b c : ℕ) (w : Waiting)
    → Shows docs f
    → count_children docs (totals a b c, ids w)
      ≡ (totals (a + files_at f) (b + folders_at f) (c + bytes_at f), ids (push f w))
unfolding count_children count_child bits_64
count_children_lem [] empty a b c w h =
    ap (λ t. (t, ids w)) (totals_eq _ _ _ _ _ _ (omega arith) (omega arith) (omega arith))
count_children_lem [] (grow node rest) a b c w h = absurd h
count_children_lem (v ∷ vs) empty a b c w h = absurd h
count_children_lem (v ∷ vs) (grow (sized n) rest) a b c w h = rw h.0 (
    ap (λ (t : Totals). count_children vs (t, ids w))
      (wrapped_eq _ _ _ _ _ _ (wrap_suc a) refl (wrap_plus c n))
    ∙ count_children_lem vs rest (suc a) b (c + n) w h.1
    ∙ ap (λ t. (t, ids (push rest w)))
        (totals_eq _ _ _ _ _ _ (omega arith) (omega arith) (omega arith)))
count_children_lem (v ∷ vs) (grow unsized rest) a b c w h = rw h.0 (
    ap (λ (t : Totals). count_children vs (t, ids w))
      (wrapped_eq _ _ _ _ _ _ (wrap_suc a) refl refl)
    ∙ count_children_lem vs rest (suc a) b c w h.1
    ∙ ap (λ t. (t, ids (push rest w)))
        (totals_eq _ _ _ _ _ _ (omega arith) (omega arith) (omega arith)))
count_children_lem (v ∷ vs) (grow (folder id below) rest) a b c w h =
    rw (h.0.0, h.0.1)
      (ap (λ (t : Totals). count_children vs (t, id ∷ ids w))
          (wrapped_eq _ _ _ _ _ _ refl (wrap_suc b) refl)
        ∙ count_children_lem vs rest a (suc b) c ((id, below) ∷ w) h.1
        ∙ ap (λ t. (t, ids (push rest ((id, below) ∷ w))))
            (totals_eq _ _ _ _ _ _ (omega arith) (omega arith) (omega arith)))

-- A sum over the forests that wait.
abbrev over : (Forest → ℕ) → Waiting → ℕ
over g [] = 0
over g ((id, f) ∷ rest) = g f + over g rest

-- The folders that wait, and all below them.
abbrev weight : Waiting → ℕ
weight [] = 0
weight ((id, f) ∷ rest) = suc (folders_in f) + weight rest

push-sums :
    (f : Forest) (w : Waiting)
    → (over files_in (push f w) + files_at f ≡ over files_in w + files_in f)
      × ((over folders_in (push f w) + folders_at f ≡ over folders_in w + folders_in f)
          × ((over bytes_in (push f w) + bytes_at f ≡ over bytes_in w + bytes_in f)
              × (weight (push f w) ≡ weight w + folders_in f)))
unfolding files_in folders_in bytes_in
push-sums empty w = (omega arith, (omega arith, (omega arith, omega arith)))
push-sums (grow (sized n) rest) w =
    let (h, (k, (l, m))) = push-sums rest w in
    (omega (arith, h), (omega (arith, k), (omega (arith, l), omega (arith, m))))
push-sums (grow unsized rest) w =
    let (h, (k, (l, m))) = push-sums rest w in
    (omega (arith, h), (omega (arith, k), (omega (arith, l), omega (arith, m))))
push-sums (grow (folder id below) rest) w =
    let (h, (k, (l, m))) = push-sums rest ((id, below) ∷ w) in
    (omega (arith, h), (omega (arith, k), (omega (arith, l), omega (arith, m))))

module _ (list : Bytes → Action Drive (Option (List Json))) where
  abbrev IsListedAll : Waiting → Type 0
  IsListedAll [] = Unit {0}
  IsListedAll ((id, f) ∷ rest) = (IsListed list id f × IsListedBelow list f) × IsListedAll rest

  push-IsListedAll :
      (f : Forest) (w : Waiting) → IsListedBelow list f → IsListedAll w → IsListedAll (push f w)
  unfolding IsListedBelow
  push-IsListedAll empty w h k = k
  push-IsListedAll (grow (sized n) rest) w h k = push-IsListedAll rest w h.1 k
  push-IsListedAll (grow unsized rest) w h k = push-IsListedAll rest w h.1 k
  push-IsListedAll (grow (folder id below) rest) w h k =
      push-IsListedAll rest ((id, below) ∷ w) h.1 (h.0, k)

  module _ (cancelled : List HttpRequest → Bool)
      (never : (rs : List HttpRequest) → cancelled rs ≡ false) where
    count_folders_lem :
        (fuel a b c : ℕ) (w : Waiting) (d : Drive)
        → weight w ≤ fuel
        → IsListedAll w
        → (count_folders list cancelled fuel (totals a b c) (ids w) d).1
          ≡ ok (some (totals (a + over files_in w) (b + over folders_in w) (c + over bytes_in w)))
    unfolding count_folders
    count_folders_lem fuel a b c [] d enough h =
        ap (λ t. ok (some t)) (totals_eq _ _ _ _ _ _ (omega arith) (omega arith) (omega arith))
    count_folders_lem zero a b c ((id, f) ∷ w) d enough h = absurd (omega (arith, enough))
    count_folders_lem (suc fuel) a b c ((id, f) ∷ w) d enough h =
        let (docs, listed, shows) = h.0.0 d in
        let (hf, (hd, (hb, hw))) = push-sums f w in
        rw (never d.requests, listed, count_children_lem docs f a b c w shows)
          (count_folders_lem fuel _ _ _ (push f w) _ (omega (arith, enough, hw))
              (push-IsListedAll f w h.0.1 h.1)
            ∙ ap (λ t. ok (some t))
                (totals_eq _ _ _ _ _ _ (omega (arith, hf)) (omega (arith, hd)) (omega (arith, hb))))

    pub count_folders-totals :
        (fuel : ℕ) (id : Bytes) (f : Forest) (d : Drive)
        → suc (folders_in f) ≤ fuel
        → IsListed list id f
        → IsListedBelow list f
        → (count_folders list cancelled fuel (totals 0 0 0) (id ∷ []) d).1
          ≡ ok (some (totals (files_in f) (folders_in f) (bytes_in f)))
    count_folders-totals fuel id f d enough shown below =
        count_folders_lem fuel 0 0 0 ((id, f) ∷ []) d (omega (arith, enough)) ((shown, below), tt)
        ∙ ap (λ t. ok (some t)) (totals_eq _ _ _ _ _ _ (omega arith) (omega arith) (omega arith))
