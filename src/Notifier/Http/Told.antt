-- ===== src/Notifier/Http/Told.antt =====
-- What the answer about a booking holds, and in which order.
use slot.Prelude.{
  String, ◌≡◌, refl, Bool, true, false, ◌&&◌, List, [], ◌∷◌, arith, any_of, select, IsOrdered,
  sort_with-IsOrdered, any_of-sort_with, ◌∙◌, some, map,
}
use slot.Notifier.Models.{Notification}
use slot.Notifier.Http.{
  Library, is_before, is_about, list_notifications, serve, notification_out, is_external_id,
}

any_of-select :
    (p q : Notification → Bool) (rows : List Notification)
    → any_of p (select q rows) ≡ any_of (λ n. q n && p n) rows
any_of-select p q [] = refl
any_of-select p q (n ∷ rows) = ground (arith, any_of-select p q rows)

module _ (lib : Library) (total : (s t : String) → lib.collate s t ≡ false → lib.collate t s ≡ true)
    (trans : (s t u : String)
      → lib.collate s t ≡ true
      → lib.collate t u ≡ true
      → lib.collate s u ≡ true) where
  is_before_total : (n m : Notification) → is_before lib n m ≡ false → is_before lib m n ≡ true
  is_before_total n m h = ground (arith, total n.event_id m.event_id, h)

  is_before_trans :
      (n m k : Notification)
      → is_before lib n m ≡ true
      → is_before lib m k ≡ true
      → is_before lib n k ≡ true
  is_before_trans n m k h h' = ground (arith, trans n.event_id m.event_id k.event_id, h, h')

  -- A request about a valid identifier is answered with the notifications of that booking, all of
  -- them and no other, the oldest first and those of one moment by their event, where the database
  -- orders texts by a total order.
  pub serve_told :
      (rows : List Notification) (booking_id : String)
      → is_external_id lib booking_id ≡ true
      → (found : List Notification) × ((serve lib rows booking_id).body
          ≡ some (map notification_out found))
        × ((p : Notification → Bool)
            → any_of p found ≡ any_of (λ n. is_about lib booking_id n && p n) rows)
        × IsOrdered (is_before lib) found
  unfolding serve list_notifications
  serve_told rows booking_id valid = (
    list_notifications lib rows booking_id,
    rw (valid, serve) refl,
    λ p.
        any_of-sort_with (is_before lib) p (select (is_about lib booking_id) rows)
        ∙ any_of-select p (is_about lib booking_id) rows,
    sort_with-IsOrdered (is_before lib) is_before_total is_before_trans
        (select (is_about lib booking_id) rows),
  )
