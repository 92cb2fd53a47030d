-- ===== src/Storage/Paths.antt =====
-- The paths of backend/dfs/storage/local_storage.go, and path/filepath as they use it.
--
-- A path is the names of its directories from the root, the last one first, once "." and ".." are
-- resolved; the directories on the way are taken to be there, and no link among them. The ending
-- (.dat or .metadata.json) is apart: no path with the one has the other, and neither the index nor
-- its temporary file has one of them.
use distributed_file_system.Prelude.{
  ℕ, zero, suc, ◌≤◌, ◌<◌, ◌≡◌, ◌≢◌, ◌↔◌, refl, sym, ap, ◌∙◌, Bool, true, false, ◌&&◌, List, [], ◌∷◌,
  ◌++◌, Bytes, All, length, take, if◌then◌else◌, bytes_eq, bytes_beq, bytes_beq_iff, Eq, ◌==◌,
  nat_eq, nat_beq_iff, arith, codes, Bool-cases, inl, inr,
}

-- The directories of a path, the last one first.
abbrev pub Directory : Type 0
Directory = List Bytes

pub data FilePath : Type 0 where
  data_path metadata_path : Directory → FilePath
  index_file index_temp_file : FilePath

abbrev pub directory_beq : Directory → Directory → Bool
directory_beq [] [] = true
directory_beq (a ∷ p) (b ∷ q) = bytes_beq a b && directory_beq p q
directory_beq _ _ = false

directory_beq_iff : (p q : Directory) → (directory_beq p q ≡ true) ↔ (p ≡ q)
directory_beq_iff [] [] = (λ _. refl, λ _. refl)
directory_beq_iff [] (b ∷ q) = (λ h. cc, λ h. cc)
directory_beq_iff (a ∷ p) [] = (λ h. cc, λ h. cc)
directory_beq_iff (a ∷ p) (b ∷ q) = ground (arith, bytes_beq_iff a b, directory_beq_iff p q)

abbrev path_beq : FilePath → FilePath → Bool
path_beq (data_path a) (data_path b) = directory_beq a b
path_beq (metadata_path a) (metadata_path b) = directory_beq a b
path_beq index_file index_file = true
path_beq index_temp_file index_temp_file = true
path_beq _ _ = false

pub path_beq_iff : (p q : FilePath) → (path_beq p q ≡ true) ↔ (p ≡ q)
path_beq_iff (data_path a) (data_path b) = ground (arith, directory_beq_iff a b)
path_beq_iff (metadata_path a) (metadata_path b) = ground (arith, directory_beq_iff a b)
path_beq_iff index_file index_file = ground arith
path_beq_iff index_temp_file index_temp_file = ground arith
path_beq_iff _ _ = ground arith

instance abbrev pub path_eq : Eq FilePath
path_eq = record { beq = path_beq; beq_iff = path_beq_iff }

abbrev pub slash : ℕ
slash = 47

abbrev pub parent : Directory → Directory
parent [] = []
parent (name ∷ dir) = dir

unfoldable pub enter : Directory → Bytes → Directory
enter dir name =
    if name == []
    then dir
    else if name == codes "."
    then dir
    else if name == codes ".."
    then parent dir
    else name ∷ dir

-- Where a text leads from a directory; the name after its last slash, which an ending follows, is
-- never "." or "..".
unfoldable pub locate : Directory → Bytes → Bytes → Directory
locate dir name [] = name ∷ dir
locate dir name (c ∷ cs) =
    let here = locate dir (name ++ c ∷ []) cs in
    let below = locate (enter dir name) [] cs in if c == slash then below else here

-- Of `filePath` and `metadataFilePath`, which differ in the ending.
abbrev pub placed : Directory → Bytes → Directory
placed base hash = locate (codes "data" ∷ base) [] (take 2 hash ++ slash ∷ hash)

abbrev pub data_file : Directory → Bytes → FilePath
data_file base hash = data_path (placed base hash)

abbrev pub metadata_file : Directory → Bytes → FilePath
metadata_file base hash = metadata_path (placed base hash)

-- A text that begins with a slash leads from the root.
abbrev pub origin : Directory → Bytes → Directory
origin working [] = working
origin working (c ∷ cs) = if c == slash then [] else working

-- The path of `DeleteFile` for the metadata, which is relative to the directory that the node runs
-- in.
abbrev pub stray_metadata_file : Directory → Bytes → FilePath
stray_metadata_file working hash = metadata_path (locate (origin working hash) [] hash)

-- A text without a slash.
abbrev pub IsName : Bytes → Type 0
IsName = All (λ b. b ≢ slash)

no_slash : (c : ℕ) → c ≢ slash → (c == slash) ≡ false
no_slash c ne = ground (arith, nat_beq_iff c slash)

append_nil : (xs : Bytes) → xs ++ [] ≡ xs
append_nil [] = refl
append_nil (x ∷ xs) = ap (λ z. x ∷ z) (append_nil xs)

append_cons : (xs : Bytes) (c : ℕ) (ys : Bytes) → (xs ++ c ∷ []) ++ ys ≡ xs ++ c ∷ ys
append_cons [] c ys = refl
append_cons (x ∷ xs) c ys = ap (λ z. x ∷ z) (append_cons xs c ys)

locate_name :
    (dir : Directory) (name cs : Bytes) → IsName cs → locate dir name cs ≡ (name ++ cs) ∷ dir
unfolding locate
locate_name dir name [] p = ap (λ z. z ∷ dir) (sym (append_nil name))
locate_name dir name (c ∷ cs) p =
    rw (no_slash c p.0, locate)
      (locate_name dir (name ++ c ∷ []) cs p.1 ∙ ap (λ z. z ∷ dir) (append_cons name c cs))

locate_below :
    (dir : Directory) (name xs cs : Bytes)
    → IsName xs
    → locate dir name (xs ++ slash ∷ cs) ≡ locate (enter dir (name ++ xs)) [] cs
unfolding locate
locate_below dir name [] cs p = ap (λ z. locate (enter dir z) [] cs) (sym (append_nil name))
locate_below dir name (x ∷ xs) cs p =
    rw (no_slash x p.0, locate)
      (locate_below dir (name ++ x ∷ []) xs cs p.1
        ∙ ap (λ z. locate (enter dir z) [] cs) (append_cons name x xs))

IsName-take : (n : ℕ) (xs : Bytes) → IsName xs → IsName (take n xs)
IsName-take zero xs p = tt
IsName-take (suc n) [] p = tt
IsName-take (suc n) (x ∷ xs) p = (p.0, IsName-take n xs p.1)

-- A file stands two directories below the base, in the one that its first two bytes name.
placed_name :
    (base : Directory) (hash : Bytes)
    → IsName hash
    → placed base hash ≡ hash ∷ enter (codes "data" ∷ base) (take 2 hash)
placed_name base hash p =
    locate_below (codes "data" ∷ base) [] (take 2 hash) hash (IsName-take 2 hash p)
    ∙ locate_name (enter (codes "data" ∷ base) (take 2 hash)) [] hash p

head_injective : {a b : Bytes} {p q : Directory} → a ∷ p ≡ b ∷ q → a ≡ b
head_injective h = cc

tail_injective : {a b : Bytes} {p q : Directory} → a ∷ p ≡ b ∷ q → p ≡ q
tail_injective h = cc

placed_injective :
    (base : Directory) (a b : Bytes) → IsName a → IsName b → placed base a ≡ placed base b → a ≡ b
placed_injective base a b p q h =
    head_injective (sym (placed_name base a p) ∙ h ∙ placed_name base b q)

origin_name : (working : Directory) (hash : Bytes) → IsName hash → origin working hash ≡ working
origin_name working [] p = refl
origin_name working (c ∷ cs) p = rw (no_slash c p.0) refl

length-enter :
    (name first : Bytes) (dir : Directory) → length dir ≤ length (enter (first ∷ dir) name)
unfolding enter
length-enter name first dir = ground arith

stray_elsewhere :
    (base working : Directory) (k hash : Bytes)
    → IsName k
    → IsName hash
    → length working < length base
    → placed base k ≢ locate (origin working hash) [] hash
stray_elsewhere base working k hash p q deeper h =
    let same : enter (codes "data" ∷ base) (take 2 k) ≡ origin working hash =
      tail_injective
        (sym (placed_name base k p) ∙ h ∙ locate_name (origin working hash) [] hash q) in
    let long = length-enter (take 2 k) (codes "data") base in
    let equal = ap length (same ∙ origin_name working hash q) in omega (arith, long, equal, deeper)

-- The data files of two names are two files.
pub placed_ne :
    (base : Directory) (k hash : Bytes)
    → IsName k
    → IsName hash
    → k ≢ hash
    → directory_beq (placed base hash) (placed base k) ≡ false
placed_ne base k hash p q ne =
    elim (Bool-cases (directory_beq (placed base hash) (placed base k))) [
      | inl e ↦ absurd (
          ne (
            sym (
              placed_injective base hash k q p
                ((directory_beq_iff (placed base hash) (placed base k)).0 e))))
      | inr e ↦ e
    ]

-- A file of metadata under the base is another file than the one that a deletion takes.
pub stray_ne :
    (base working : Directory) (k hash : Bytes)
    → IsName k
    → IsName hash
    → length working < length base
    → directory_beq (locate (origin working hash) [] hash) (placed base k) ≡ false
stray_ne base working k hash p q deeper =
    elim (Bool-cases (directory_beq (locate (origin working hash) [] hash) (placed base k))) [
      | inl e ↦ absurd (
          stray_elsewhere base working k hash p q deeper
            (sym ((directory_beq_iff (locate (origin working hash) [] hash) (placed base k)).0 e)))
      | inr e ↦ e
    ]
