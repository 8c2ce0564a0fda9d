-- ===== src/Recovery/Removal.antt =====
-- What the removal of the runtime's files does (remove_known_runtime_files of
-- sources/command/src/runtime_recovery.cpp).
use hakoniwa_core_pro.Base.{
  ℕ, ◌+◌, ◌≡◌, ◌≢◌, ◌⊎◌, inl, inr, refl, sym, ap, ◌∙◌, subst, arith, Bool, true, false, Option,
  List, [], ◌∷◌, ◌++◌, if◌then◌else◌, Name, if_cases, if_intro, maybe_intro, maybe_cases, none,
  some,
}
use hakoniwa_core_pro.Recovery.Files.{
  Result, recovered, partial, is_flock, before, insert, ordered, remove_files,
  remove_known_runtime_files,
}

-- Only the lock file is in the list.
abbrev pub AllFlock : List Name → Type 0
AllFlock [] = Unit
AllFlock (x ∷ xs) = (is_flock x ≡ true) × AllFlock xs

abbrev pub HasFlock : List Name → Type 0
HasFlock [] = ⊥
HasFlock (x ∷ xs) = (is_flock x ≡ true) ⊎ HasFlock xs

-- After the lock file comes nothing else.
abbrev FlockLast : List Name → Type 0
FlockLast [] = Unit
FlockLast (x ∷ xs) = (is_flock x ≡ true → AllFlock xs) × FlockLast xs

insert-AllFlock :
    (x : Name) (ys : List Name) → is_flock x ≡ true → AllFlock ys → AllFlock (insert x ys)
unfolding insert
insert-AllFlock x [] e a = (e, tt)
insert-AllFlock x (y ∷ ys) e a =
    if_intro AllFlock (before y x) (a.0, insert-AllFlock x ys e a.1) (e, a)

before_flock : (y x : Name) → before y x ≡ true → is_flock y ≡ true → is_flock x ≡ true
before_flock y x b e = ground arith

behind_flock : (y x : Name) → before y x ≡ false → is_flock x ≡ true → is_flock y ≡ true
behind_flock y x b e = ground arith

insert-FlockLast : (x : Name) (ys : List Name) → FlockLast ys → FlockLast (insert x ys)
unfolding insert
insert-FlockLast x [] l = (λ e. tt, tt)
insert-FlockLast x (y ∷ ys) l =
    if_cases FlockLast (before y x)
      (λ b. (λ e. insert-AllFlock x ys (before_flock y x b e) (l.0 e), insert-FlockLast x ys l.1))
      (λ b. (λ e. let f = behind_flock y x b e in (f, l.0 f), l))

ordered-FlockLast : (files : List (Name × Bool)) → FlockLast (ordered files)
unfolding ordered
ordered-FlockLast [] = tt
ordered-FlockLast ((name, regular) ∷ files) =
    insert-FlockLast name (ordered files) (ordered-FlockLast files)

-- How many names of a list pass a test.
abbrev pub count : (Name → Bool) → List Name → ℕ
count p [] = 0
count p (x ∷ xs) = (if p x then 1 else 0) + count p xs

abbrev pub names : List (Name × Bool) → List Name
names [] = []
names ((name, regular) ∷ files) = name ∷ names files

count-insert :
    (p : Name → Bool) (x : Name) (ys : List Name)
    → count p (insert x ys) ≡ (if p x then 1 else 0) + count p ys
unfolding insert
count-insert p x [] = refl
count-insert p x (y ∷ ys) = ground (arith, count-insert p x ys)

count-ordered :
    (p : Name → Bool) (files : List (Name × Bool)) → count p (ordered files) ≡ count p (names files)
unfolding ordered
count-ordered p [] = refl
count-ordered p ((name, regular) ∷ files) =
    ground (arith, count-insert p name (ordered files), count-ordered p files)

-- What was removed and what remains make up the list, and nothing remains exactly if all is recovered.
record IsSplit (l : List Name) (r : Result) : Type 0 where
  pub parts : r.removed ++ r.remaining ≡ l
  pub status :
      ((r.status ≡ recovered) × (r.remaining ≡ [])) ⊎ ((r.status ≡ partial) × (r.remaining ≢ []))

flock_left : (a b : List Name) → FlockLast (a ++ b) → HasFlock a → AllFlock b
flock_left [] b l h = absurd h
flock_left (x ∷ a) b l (inl e) = last_part a b (l.0 e)
  where
    last_part : (a b : List Name) → AllFlock (a ++ b) → AllFlock b
    last_part [] b f = f
    last_part (x ∷ a) b f = last_part a b f.1
flock_left (x ∷ a) b l (inr h) = flock_left a b l.1 h

module _ {W : Type 0} (remove_file : Name → W → W × Option Name) where
  -- The files that were removed, one by one, and those that remain: each removal gave no error, and where
  -- files remain, that of the first of them gave the error that is reported. There was no other call.
  abbrev pub Ran : List Name → List Name → List (Name × Name) → W → W → Type 0
  Ran [] [] failures w w' = (w' ≡ w) × (failures ≡ [])
  Ran [] (path ∷ paths) failures w w' =
      (reason : Name) × (remove_file path w ≡ (w', some reason)) × (failures ≡ (path, reason) ∷ [])
  Ran (path ∷ paths) remaining failures w w' =
      ((remove_file path w).1 ≡ none) × Ran paths remaining failures (remove_file path w).0 w'

  abbrev RanAs : W → W × Result → Type 0
  RanAs w (w', r) = Ran r.removed r.remaining r.failures w w'

  remove_files-RanAs : (l : List Name) (w : W) → RanAs w (remove_files remove_file l w)
  unfolding remove_files
  remove_files-RanAs [] w = (refl, refl)
  remove_files-RanAs (x ∷ xs) w =
      maybe_cases (RanAs w) (remove_file x w).1
        (λ e. (e, remove_files-RanAs xs (remove_file x w).0))
        (λ reason e. (reason, ap (λ o. ((remove_file x w).0, o)) e, refl))

  remove_files-IsSplit : (l : List Name) (w : W) → IsSplit l (remove_files remove_file l w).1
  unfolding remove_files
  remove_files-IsSplit [] w = record { parts = refl; status = inl (refl, refl) }
  remove_files-IsSplit (x ∷ xs) w =
      let h = remove_files-IsSplit xs (remove_file x w).0 in
      maybe_intro (λ (s : W × Result). IsSplit (x ∷ xs) s.1) (remove_file x w).1
        (record { parts = ap (λ l. x ∷ l) h.parts; status = h.status })
        (λ reason. record { parts = refl; status = inr (refl, λ e. cc) })

-- The outcome of a removal: every known file is either removed or reported as remaining, as often as it is
-- listed; the calls say which; so does the status; and the lock file goes last.
pub record Removes {W : Type 0} (remove_file : Name → W → W × Option Name)
    (files : List (Name × Bool)) (w w' : W) (r : Result) : Type 0 where
  pub calls : Ran remove_file r.removed r.remaining r.failures w w'
  pub each : (p : Name → Bool) → count p (r.removed ++ r.remaining) ≡ count p (names files)
  pub status :
      ((r.status ≡ recovered) × (r.remaining ≡ [])) ⊎ ((r.status ≡ partial) × (r.remaining ≢ []))
  pub flock_last : HasFlock r.removed → AllFlock r.remaining

-- However the removal of single files fails: the known files are removed one after the other, up to the first
-- whose removal gives an error. Those reported as removed are exactly those whose removal was asked for and gave no error; all others, from the one that failed on, are reported as
-- remaining, and the one failure reported is that file with its error. Each known file is in one of the two
-- lists; the status is RECOVERED exactly if nothing remains, and PARTIAL otherwise; and once flock.bin is
-- removed, no other file remains.
pub remove_known_runtime_files-Removes :
    {W : Type 0} (remove_file : Name → W → W × Option Name) (files : List (Name × Bool)) (w : W)
    → let (w', r) = remove_known_runtime_files remove_file files w in
      Removes remove_file files w w' r
unfolding remove_known_runtime_files
remove_known_runtime_files-Removes remove_file files w =
    let h = remove_files-IsSplit remove_file (ordered files) w in
    record {
      calls = remove_files-RanAs remove_file (ordered files) w;
      each = λ p. ap (count p) h.parts ∙ count-ordered p files;
      status = h.status;
      flock_last =
          let r = (remove_files remove_file (ordered files) w).1 in
          flock_left r.removed r.remaining
            (subst FlockLast (sym h.parts) (ordered-FlockLast files));
    }
