-- ===== src/Tools/DependencyAudit/Aliases.antt =====
-- One finding for each vulnerability of a project, whatever names it is published under.
use slot.Prelude.{
  ℕ, ◌+◌, ◌≤◌, String, ◌≡◌, refl, sym, ◌∙◌, ap, inl, inr, Bool, true, false, ◌&&◌, Option, some,
  List, [], ◌∷◌, arith, eq_iff, any_of, count_if, count_if-eq-zero, map, subst, All, not,
  if◌then◌else◌, Bool-cases, Result-cases, ok, err, All-map, any_of_of-count_if, count_if_of-any_of,
}
use slot.Tools.DependencyAudit.{
  Finding, RawVulnerability, canonical_key, preferred, same_vulnerability, Slot, put_best,
  insert_finding, sort_findings, finding_of, gather, findings_of,
}

-- What `same_vulnerability` compares.
abbrev Same : Finding → Finding → Type 0
Same a b =
    (a.package_name ≡ b.package_name)
    × (a.version ≡ b.version)
    × (canonical_key a.advisory a.aliases ≡ canonical_key b.advisory b.aliases)

same→Same : (a b : Finding) → same_vulnerability a b ≡ true → Same a b
same→Same a b h =
    let key = canonical_key a.advisory a.aliases in
    let key' = canonical_key b.advisory b.aliases in
    ground
      (arith, eq_iff a.package_name b.package_name, eq_iff a.version b.version, eq_iff key key')

Same→same : (a b : Finding) → Same a b → same_vulnerability a b ≡ true
Same→same a b (p, v, k) =
    let key = canonical_key a.advisory a.aliases in
    let key' = canonical_key b.advisory b.aliases in
    ground (
      arith,
      (eq_iff a.package_name b.package_name).1 p,
      (eq_iff a.version b.version).1 v,
      (eq_iff key key').1 k,
    )

same_refl : (a : Finding) → same_vulnerability a a ≡ true
same_refl a = Same→same a a (refl, refl, refl)

-- Findings of one vulnerability are tested alike.
same_left :
    (a b f : Finding)
    → same_vulnerability a b ≡ true
    → same_vulnerability a f ≡ same_vulnerability b f
same_left a b f h = let (p, v, k) = same→Same a b h in rw p (rw v (rw k refl))

same_right :
    (f a b : Finding)
    → same_vulnerability a b ≡ true
    → same_vulnerability f a ≡ same_vulnerability f b
same_right f a b h = let (p, v, k) = same→Same a b h in rw p (rw v (rw k refl))

same_sym : (a b : Finding) → same_vulnerability a b ≡ true → same_vulnerability b a ≡ true
same_sym a b h = let (p, v, k) = same→Same a b h in Same→same b a (sym p, sym v, sym k)

abbrev keyed : Finding → Slot → Bool
keyed f s = same_vulnerability s.key f

-- The finding of an entry of the dictionary is of its key.
abbrev OfKey : Slot → Type 0
OfKey s = same_vulnerability s.key s.best ≡ true

preferred-OfKey :
    (key best f : Finding)
    → same_vulnerability key best ≡ true
    → same_vulnerability key f ≡ true
    → same_vulnerability key (preferred best f) ≡ true
unfolding preferred
preferred-OfKey key best f h k = ground arith

put_best-OfKey : (f : Finding) (ss : List Slot) → All OfKey ss → All OfKey (put_best f ss)
unfolding put_best
put_best-OfKey f [] h = (same_refl f, tt)
put_best-OfKey f (s ∷ ss) h = elim (Bool-cases (same_vulnerability s.key f)) [
  | inl hit ↦ rw hit (preferred-OfKey s.key s.best f h.0 hit, h.1)
  | inr miss ↦ rw miss (h.0, put_best-OfKey f ss h.1)
]

count-put_best :
    (g f : Finding) (ss : List Slot)
    → count_if (keyed g) (put_best f ss)
      ≡ (if same_vulnerability f g && not (any_of (keyed f) ss) then 1 else 0)
        + count_if (keyed g) ss
unfolding put_best
count-put_best g f [] = ground arith
count-put_best g f (s ∷ ss) = elim (Bool-cases (same_vulnerability s.key f)) [
  | inl hit ↦ rw hit (ground arith)
  | inr miss ↦ rw miss (ground (arith, count-put_best g f ss))
]

count_alike :
    (g f : Finding) (ss : List Slot)
    → same_vulnerability f g ≡ true
    → count_if (keyed g) ss ≡ count_if (keyed f) ss
count_alike g f [] h = refl
count_alike g f (s ∷ ss) h = rw (same_right s.key f g h) (ground (arith, count_alike g f ss h))

put_best_once :
    (f : Finding) (ss : List Slot)
    → ((g : Finding) → count_if (keyed g) ss ≤ 1)
    → (g : Finding) → count_if (keyed g) (put_best f ss) ≤ 1
put_best_once f ss once g = elim (Bool-cases (same_vulnerability f g)) [
  | inr other ↦ ground (arith, count-put_best g f ss, once g)
  | inl same ↦
      ground (
        arith,
        count-put_best g f ss,
        once g,
        count_alike g f ss same,
        count_if-eq-zero (keyed f) ss,
      )
]

-- A vulnerability that has an entry keeps it, and the one that is put has one.
put_best_kept :
    (g f : Finding) (ss : List Slot)
    → any_of (keyed g) ss ≡ true
    → any_of (keyed g) (put_best f ss) ≡ true
put_best_kept g f ss h =
    any_of_of-count_if (keyed g) (put_best f ss)
      (ground (arith, count-put_best g f ss, count_if_of-any_of (keyed g) ss h))

put_best_there : (f : Finding) (ss : List Slot) → any_of (keyed f) (put_best f ss) ≡ true
put_best_there f ss = elim (Bool-cases (any_of (keyed f) ss)) [
  | inl old ↦ put_best_kept f f ss old
  | inr new ↦
      any_of_of-count_if (keyed f) (put_best f ss)
        (ground (arith, count-put_best f f ss, same_refl f, new))
]

abbrev of_vulnerability : Finding → Finding → Bool
of_vulnerability g f = same_vulnerability f g

count-insert_finding :
    (p : Finding → Bool) (f : Finding) (fs : List Finding)
    → count_if p (insert_finding f fs) ≡ (if p f then 1 else 0) + count_if p fs
count-insert_finding p f [] = refl
count-insert_finding p f (g ∷ gs) = ground (arith, count-insert_finding p f gs)

count-sort_findings :
    (p : Finding → Bool) (fs : List Finding) → count_if p (sort_findings fs) ≡ count_if p fs
count-sort_findings p [] = refl
count-sort_findings p (f ∷ fs) =
    omega (arith, count-insert_finding p f (sort_findings fs), count-sort_findings p fs)

count-bests :
    (g : Finding) (ss : List Slot)
    → All OfKey ss
    → count_if (of_vulnerability g) (map (λ (s : Slot). s.best) ss) ≡ count_if (keyed g) ss
count-bests g [] h = refl
count-bests g (s ∷ ss) h =
    rw (sym (same_left s.key s.best g h.0)) (ground (arith, count-bests g ss h.1))

module _ (from_isoformat : String → Option ℕ) (project : String) where
  -- The report entry has a finding of its vulnerability among these.
  abbrev pub is_listed : List Finding → RawVulnerability → Bool
  is_listed findings raw = elim (finding_of from_isoformat project raw) [
    | err e ↦ false
    | ok f ↦ any_of (of_vulnerability f) findings
  ]

  abbrev HasSlot : List Slot → RawVulnerability → Type 0
  HasSlot ss raw =
      (f : Finding) × (finding_of from_isoformat project raw ≡ ok f) × (any_of (keyed f) ss ≡ true)

  -- The dictionary after the loop.
  record Gathered (raws : List RawVulnerability) (before after : List Slot) : Type 0 where
    of_key : All OfKey after
    once : (g : Finding) → count_if (keyed g) after ≤ 1
    kept : (g : Finding) → any_of (keyed g) before ≡ true → any_of (keyed g) after ≡ true
    all : All (HasSlot after) raws

  gather-Gathered :
      (raws : List RawVulnerability) (before after : List Slot)
      → gather from_isoformat project raws before ≡ ok after
      → All OfKey before
      → ((g : Finding) → count_if (keyed g) before ≤ 1)
      → Gathered raws before after
  unfolding gather
  gather-Gathered [] before after done h once =
      let eq : before ≡ after = cc (done) in
      subst (Gathered [] before) eq (record { of_key = h; once = once; kept = λ g k. k; all = tt })
  gather-Gathered (raw ∷ raws) before after done h once =
      elim (Result-cases (finding_of from_isoformat project raw)) [
        | inr (e, bad) ↦ absurd (ground (arith, bad))
        | inl (f, good) ↦
            let rest =
              gather-Gathered raws (put_best f before) after (ground (arith, good))
                (put_best-OfKey f before h) (put_best_once f before once) in
            record {
              of_key = rest.of_key;
              once = rest.once;
              kept = λ g k. rest.kept g (put_best_kept g f before k);
              all = ((f, good, rest.kept f (put_best_there f before)), rest.all);
            }
      ]

  -- `findings_of` lists each vulnerability of a package version once, whatever names it is published
  -- under, and leaves out none that the report has.
  pub findings_of_once :
      (raws : List RawVulnerability) (findings : List Finding)
      → findings_of from_isoformat project (some raws) ≡ ok findings
      → ((g : Finding) → count_if (λ f. same_vulnerability f g) findings ≤ 1)
        × All (λ raw. is_listed findings raw ≡ true) raws
  unfolding findings_of
  findings_of_once raws findings done =
      elim (Result-cases (gather from_isoformat project raws [])) [
        | inr (e, bad) ↦ absurd (ground (arith, bad))
        | inl (after, good) ↦
            let g = gather-Gathered raws [] after good tt (λ g. omega arith) in
            let eq : sort_findings (map (λ (s : Slot). s.best) after) ≡ findings =
              ground (arith, good) in
            let counts = λ (x : Finding).
              ap (count_if (of_vulnerability x)) (sym eq)
              ∙ count-sort_findings (of_vulnerability x) (map (λ (s : Slot). s.best) after)
              ∙ count-bests x after g.of_key in
            (
              (λ x. omega (arith, counts x, g.once x)),
              All-map raws
                  (λ raw (f, found, there).
                    rw (found, is_listed)
                      (any_of_of-count_if (of_vulnerability f) findings
                        (omega (arith, counts f, count_if_of-any_of (keyed f) after there))))
                  g.all,
            )
      ]
