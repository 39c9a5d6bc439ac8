-- ===== src/Notifier/Rows.antt =====
-- The table while messages are handled: no row goes, and none that is dealt with opens again.
use slot.Prelude.{
  String, ◌≡◌, if◌then◌else◌, refl, inl, inr, Bool, true, false, Option, none, some, List, arith,
  str_eq, eq_iff, eq_refl, any_of, update_where, Bool-cases, subst, ap, sym, ◌∙◌,
  any_of-update_where, any_of-find_by, find_by-update_where,
}
use slot.Notifier.Models.{Notification, is_of_event, get_notification}
use slot.Notifier.Consumer.{is_done, insert_claim}

-- What becomes of the table: no event loses its row, and none that is dealt with is opened again.
abbrev pub Extends : List Notification → List Notification → Type 0
Extends rows rows' =
    (e : String)
    → (any_of (is_of_event e) rows ≡ true → any_of (is_of_event e) rows' ≡ true)
      × (is_done (get_notification e rows) ≡ true → is_done (get_notification e rows') ≡ true)

pub Extends-refl : (rows : List Notification) → Extends rows rows
Extends-refl rows e = (λ h. h, λ h. h)

pub Extends-trans : (xs ys zs : List Notification) → Extends xs ys → Extends ys zs → Extends xs zs
Extends-trans xs ys zs f g e = (λ h. (g e).0 ((f e).0 h), λ h. (g e).1 ((f e).1 h))

pub is_done-some :
    (row : Option Notification) → is_done row ≡ true → (n : Notification) × (row ≡ some n)
is_done-some none h = absurd (ground arith)
is_done-some (some n) h = (n, refl)

module _ (f : Notification → Notification)
    (keeps : (n : Notification) → (f n).event_id ≡ n.event_id)
    (closed : (n : Notification) → is_done (some n) ≡ true → is_done (some (f n)) ≡ true) where
  pub update-Extends :
      (event_id : String) (rows : List Notification)
      → Extends rows (update_where (is_of_event event_id) f rows)
  update-Extends event_id rows e =
      let same : (n : Notification) → is_of_event e (f n) ≡ is_of_event e n =
        λ n. ap (λ i. str_eq i e) (keeps n) in
      (
        λ there. any_of-update_where (is_of_event e) (is_of_event event_id) f rows same ∙ there,
        λ over.
            let (n, row) = is_done-some (get_notification e rows) over in
            let after =
              find_by-update_where (is_of_event e) (is_of_event event_id) f rows n same row in
            let over' : is_done (some n) ≡ true = subst (λ r. is_done r ≡ true) row over in
            subst (λ r. is_done r ≡ true) (sym after) (chosen (is_of_event event_id n) n over'),
      )
    where
      chosen :
          (b : Bool) (n : Notification)
          → is_done (some n) ≡ true
          → is_done (some (if b then f n else n)) ≡ true
      chosen true n over = closed n over
      chosen false n over = over

pub insert_claim-Extends :
    (n : Notification) (rows : List Notification) → Extends rows (insert_claim n rows)
insert_claim-Extends n rows e = elim (Bool-cases (any_of (is_of_event n.event_id) rows)) [
  | inl there ↦ rw there (λ h. h, λ h. h)
  | inr fresh ↦ rw fresh (elim (Bool-cases (str_eq n.event_id e)) [
    | inl same ↦
        let eq = (eq_iff n.event_id e).0 same in
        let none_there : any_of (is_of_event e) rows ≡ false =
          subst (λ i. any_of (is_of_event i) rows ≡ false) eq fresh in
        (
          λ h. rw same refl,
          λ h.
              let (m, row) = is_done-some (get_notification e rows) h in
              absurd (cc (none_there, any_of-find_by (is_of_event e) rows m row)),
        )
    | inr other ↦ rw other (λ h. h, λ h. h)
  ])
]

pub insert_claim_present :
    (n : Notification) (rows : List Notification)
    → any_of (is_of_event n.event_id) (insert_claim n rows) ≡ true
insert_claim_present n rows = elim (Bool-cases (any_of (is_of_event n.event_id) rows)) [
  | inl there ↦ rw there there
  | inr fresh ↦ rw fresh (rw (eq_refl n.event_id) refl)
]
