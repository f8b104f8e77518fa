-- ===== src/Reader/Options.antt =====
-- The attributes of the options of a text, each kept under its id as `addReader` of
-- src/FileStatReader.cpp and of src/ProcReader.cpp keeps it: the first for each id.
use mathlib.Core.Path.{subst}
use cphf.Base.{
  ◌&&◌, all-All, all, ok-injective, ap, ==_refl, ℕ, ◌≡◌, ◌<◌, ◌^◌, refl, sym, ◌∙◌, true, ◌⊎◌, inl,
  inr, [], ◌∷◌, Option, none, some, ◌==◌, ==_iff, All, Bool-cases, Run, ok, ◌>>=◌, >>=-eq-ok,
  Ensures, Ensures->>=, Ensures-ok, arith, List, Bool, all, if◌then◌else◌, All-weaken, ltb, all-All,
  ◌&&◌,
}
use cphf.Base.Word.{int_rank, int_rank-injective}
use cphf.Text.{Text, holds}
use cphf.Common.{Attribute}
use cphf.Map.{Map, find, insert, int_less}
use cphf.Map.All.{insert-All}
use cphf.Map.Laws.{
  insert_keeps, insert_origin, insert_finds, find_same_rank, IsSorted, insert-IsSorted, or_else,
}
use cphf.Map.Extensional.{ext}

-- The loop over the options, for any reader of one.
unfoldable pub collect_values : (ℕ → Run Attribute) → Text → Map ℕ Text → Run (Map ℕ Text)
collect_values value [] m = ok m
collect_values value (c ∷ options) m =
    value c >>= λ a. collect_values value options (insert int_less a.0 a.1 m)

-- The option of an id, by the cases of the options, each with the id that it sets.
abbrev pub option_in : List (ℕ × ℕ) → ℕ → ℕ
option_in [] id = 0
option_in ((c, i) ∷ cases) id = if id == i then c else option_in cases id

abbrev pub tells : List (ℕ × ℕ) → ℕ × ℕ → Bool
tells cases d = ltb d.1 (2 ^ 32) && option_in cases d.1 == d.0

-- Where the ids tell the cases apart, the id in the case of an option is set by that option.
pub option_in-cases :
    (cases : List (ℕ × ℕ)) (c : ℕ)
    → all (tells cases) cases ≡ true
    → All (λ d. (c == d.0) ≡ true → (d.1 < 2 ^ 32) × (option_in cases d.1 ≡ c)) cases
option_in-cases cases c h = All-weaken cases (λ d t e. ground arith) (all-All (tells cases) cases h)

module _ (value : ℕ → Run Attribute) (option_of : ℕ → ℕ) where
  -- The id tells the option that sets it.
  abbrev pub IsSetBy : ℕ → Attribute → Type 0
  IsSetBy c a = (a.0 < 2 ^ 32) × (option_of a.0 ≡ c)

  abbrev pub TellsOptions : Type 0
  TellsOptions = (c : ℕ) → Ensures (IsSetBy c) (value c)

  -- The readers that are collected are sorted by their ids.
  collect-IsSorted :
      (options : Text) (m : Map ℕ Text)
      → IsSorted int_rank m
      → Ensures (IsSorted int_rank) (collect_values value options m)
  unfolding collect_values
  collect-IsSorted [] m s = s
  collect-IsSorted (c ∷ options) m s =
      Ensures->>= (IsSorted int_rank) (value c) _
        λ a e. collect-IsSorted options _ (insert-IsSorted int_rank a.0 a.1 m s)

  abbrev pub Small : Map ℕ Text → Type 0
  Small = All (λ e. e.0 < 2 ^ 32)

  pub collect-Small :
      (options : Text) (m : Map ℕ Text)
      → TellsOptions
      → Small m
      → Ensures Small (collect_values value options m)
  unfolding collect_values
  collect-Small [] m tells s = s
  collect-Small (c ∷ options) m tells s = Ensures->>= Small (value c) _ λ a e.
      collect-Small options _ tells (
        insert-All (λ e. e.0 < 2 ^ 32) int_less a.0 a.1 m (Ensures-ok (IsSetBy c) _ (tells c) e).0
          s)

  -- A value that is collected comes from an option of the text, or was there before.
  abbrev ComesFrom : Text → ℕ → Text → Type 0
  ComesFrom options k v =
      (c : ℕ) × (a : Attribute) × (holds options c ≡ true)
      × (value c ≡ ok a)
      × (int_rank k ≡ int_rank a.0)
      × (v ≡ a.1)

  collect_origin :
      (options : Text) (m m' : Map ℕ Text) (k : ℕ) (v : Text)
      → collect_values value options m ≡ ok m'
      → find int_less k m' ≡ some v
      → (find int_less k m ≡ some v) ⊎ ComesFrom options k v
  unfolding collect_values holds
  collect_origin [] m m' k v e f = inl (ground arith)
  collect_origin (c ∷ options) m m' k v e f =
      let (a, e₁, e₂) = >>=-eq-ok (value c) _ e in
      elim (collect_origin options (insert int_less a.0 a.1 m) m' k v e₂ f) [
        | inl g ↦ elim (insert_origin int_rank k a.0 a.1 v m g) [
          | inl g' ↦ inl g'
          | inr (same, from) ↦ inr (c, a, rw (==_refl c), e₁, same, from)
        ]
        | inr (d, b, h, e', same, from) ↦ inr (d, b, ground arith, e', same, from)
      ]

  -- A value that is there stays.
  collect_keeps :
      (options : Text) (m m' : Map ℕ Text) (k : ℕ) (v : Text)
      → collect_values value options m ≡ ok m'
      → find int_less k m ≡ some v
      → find int_less k m' ≡ some v
  unfolding collect_values
  collect_keeps [] m m' k v e f = ground arith
  collect_keeps (c ∷ options) m m' k v e f =
      let (a, e₁, e₂) = >>=-eq-ok (value c) _ e in
      collect_keeps options (insert int_less a.0 a.1 m) m' k v e₂
        (insert_keeps int_rank k a.0 a.1 v m f)

  -- An option of the text has a value collected.
  collect_covers :
      (options : Text) (m m' : Map ℕ Text) (c : ℕ) (a : Attribute)
      → collect_values value options m ≡ ok m'
      → holds options c ≡ true
      → value c ≡ ok a
      → (v : Text) × (find int_less a.0 m' ≡ some v)
  unfolding collect_values holds
  collect_covers [] m m' c a e h f = absurd (cc)
  collect_covers (d ∷ options) m m' c a e h f =
      let (b, e₁, e₂) = >>=-eq-ok (value d) _ e in
      elim (Bool-cases (d == c)) [
        | inl same ↦
            let w = or_else (find int_less b.0 m) b.1 in
            let same_option : d ≡ c = (==_iff d c).0 same in
            let ab : ok b ≡ ok a = sym e₁ ∙ ap (λ x. value x) same_option ∙ f in
            let found : find int_less b.0 m' ≡ some w =
              collect_keeps options (insert int_less b.0 b.1 m) m' b.0 w e₂
                (insert_finds int_rank b.0 b.1 m) in
            (
              w,
              subst (λ (x : Attribute). find int_less x.0 m' ≡ some w) {x = b} {y = a}
                  (ok-injective b a ab) found,
            )
        | inr other ↦ collect_covers options (insert int_less b.0 b.1 m) m' c a e₂ (ground arith) f
      ]

  -- The value that is collected for the id of an option of the text is that of the option.
  pub collect_value :
      (options : Text) (m : Map ℕ Text) (c : ℕ) (a : Attribute)
      → TellsOptions
      → collect_values value options [] ≡ ok m
      → holds options c ≡ true
      → value c ≡ ok a
      → find int_less a.0 m ≡ some a.1
  unfolding find
  collect_value options m c a tells e h p =
      let (w, g) = collect_covers options [] m c a e h p in
      elim (collect_origin options [] m a.0 w e g) [
        | inl g' ↦ absurd (cc)
        | inr (d, b, h', p', rb, vb) ↦
            let pa = Ensures-ok (IsSetBy c) _ (tells c) p in
            let pb = Ensures-ok (IsSetBy d) _ (tells d) p' in
            let ids : a.0 ≡ b.0 = int_rank-injective a.0 b.0 pa.0 pb.0 rb in
            let options_same : c ≡ d = sym pa.1 ∙ ap option_of ids ∙ pb.1 in
            let ab : ok a ≡ ok b = sym p ∙ ap (λ x. value x) options_same ∙ p' in
            let eq : a ≡ b = ok-injective a b ab in
            g ∙ ap some (vb ∙ sym (ap (λ (x : Attribute). x.1) eq))
      ]

  -- Two texts with the same options collect no value that differs.
  collect_same :
      (s t : Text) (m m' : Map ℕ Text) (k : ℕ) (v : Text)
      → TellsOptions
      → ((c : ℕ) → holds s c ≡ holds t c)
      → collect_values value s [] ≡ ok m
      → collect_values value t [] ≡ ok m'
      → find int_less k m ≡ some v
      → find int_less k m' ≡ some v
  unfolding find
  collect_same s t m m' k v tells same e e' f = elim (collect_origin s [] m k v e f) [
    | inl g ↦ absurd (cc)
    | inr (c, a, h, p, ra, va) ↦
        find_same_rank int_rank k a.0 m' ra
        ∙ collect_value t m' c a tells e' (sym (same c) ∙ h) p
        ∙ ap some (sym va)
  ]

  -- Two texts with the same options collect the same, whatever the order and however often.
  pub collect_values_order :
      (s t : Text) {m m' : Map ℕ Text}
      → TellsOptions
      → ((c : ℕ) → holds s c ≡ holds t c)
      → collect_values value s [] ≡ ok m
      → collect_values value t [] ≡ ok m'
      → m ≡ m'
  collect_values_order s t {m} {m'} tells same e e' =
      ext int_rank int_rank-injective m m'
        (Ensures-ok (IsSorted int_rank) _ (collect-IsSorted s [] tt) e)
        (Ensures-ok (IsSorted int_rank) _ (collect-IsSorted t [] tt) e')
        (Ensures-ok Small _ (collect-Small s [] tells tt) e)
        (Ensures-ok Small _ (collect-Small t [] tells tt) e')
        λ k. agree k (find int_less k m) (find int_less k m') refl refl
    where
      agree :
          (k : ℕ) (o o' : Option Text)
          → find int_less k m ≡ o
          → find int_less k m' ≡ o'
          → find int_less k m ≡ find int_less k m'
      agree k none none p p' = p ∙ sym p'
      agree k none (some v) p p' =
          absurd (cc (collect_same t s m' m k v tells (λ c. sym (same c)) e' e p'))
      agree k (some v) o' p p' = p ∙ sym (collect_same s t m m' k v tells same e e' p)
