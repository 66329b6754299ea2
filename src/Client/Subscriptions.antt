-- ===== src/Client/Subscriptions.antt =====
-- The subscription list holds each topic name once.
use pubsublib.Prelude.{
  ◌≡◌, refl, ap, true, false, not, ◌&&◌, ◌||◌, List, [], ◌∷◌, ◌++◌, arith, erase_if,
}
use pubsublib.Prelude.Texts.{Text, text_eq, text_eq_sound, text_eq-sym}
use pubsublib.Client.Defs.{
  Client, has_subscription, add_subscription, add_subscription_front, delete_subscription,
}

-- No topic name stands twice in the list.
abbrev pub IsDistinct : List Text → Type 0
IsDistinct [] = Unit {0}
IsDistinct (t ∷ ts) = (has_subscription t ts ≡ false) × IsDistinct ts

has_subscription-append :
    (s t : Text) (ts : List Text)
    → has_subscription s (ts ++ t ∷ []) ≡ (text_eq s t || has_subscription s ts)
has_subscription-append s t [] = refl
has_subscription-append s t (r ∷ ts) = ground (arith, has_subscription-append s t ts)

IsDistinct-append :
    (t : Text) (ts : List Text)
    → has_subscription t ts ≡ false
    → IsDistinct ts
    → IsDistinct (ts ++ t ∷ [])
IsDistinct-append t [] h d = (refl, tt)
IsDistinct-append t (r ∷ ts) h d =
    ground (arith, has_subscription-append r t ts, text_eq-sym r t, IsDistinct-append t ts)

text_eq-left : (s t r : Text) → text_eq s t ≡ true → text_eq s r ≡ text_eq t r
text_eq-left s t r h = ap (λ q. text_eq q r) (text_eq_sound s t h)

text_eq-right : (s t r : Text) → text_eq t r ≡ true → text_eq s t ≡ text_eq s r
text_eq-right s t r h = ap (text_eq s) (text_eq_sound t r h)

-- Two equal names are found together.
has_subscription-eq :
    (s t : Text) (ts : List Text)
    → text_eq s t ≡ true
    → has_subscription s ts ≡ has_subscription t ts
has_subscription-eq s t ts h = ap (λ r. has_subscription r ts) (text_eq_sound s t h)

-- Adding a name, at either end, keeps the names distinct; afterwards that name is in the list, and
-- every other name is in it as before.
pub add_subscription_lem :
    (s t : Text) (c : Client)
    → IsDistinct c.subscription_list
    → IsDistinct (add_subscription t c).subscription_list
      × IsDistinct (add_subscription_front t c).subscription_list
      × (has_subscription s (add_subscription t c).subscription_list
          ≡ (text_eq s t || has_subscription s c.subscription_list))
      × (has_subscription s (add_subscription_front t c).subscription_list
          ≡ (text_eq s t || has_subscription s c.subscription_list))
unfolding add_subscription add_subscription_front
add_subscription_lem s t c d = ground (
  arith,
  has_subscription-append s t c.subscription_list,
  IsDistinct-append t c.subscription_list,
  has_subscription-eq s t c.subscription_list,
)

has_subscription-erase :
    (s t : Text) (ts : List Text)
    → IsDistinct ts
    → has_subscription s (erase_if (λ r. text_eq t r) ts)
      ≡ (has_subscription s ts && not (text_eq s t))
has_subscription-erase s t [] d = refl
has_subscription-erase s t (r ∷ ts) d = ground (
  arith,
  has_subscription-erase s t ts d.1,
  has_subscription-eq s r ts,
  text_eq-left s t r,
  text_eq-right s t r,
)

-- Deleting a name from a list of distinct names takes out that name and no other.
pub delete_subscription_lem :
    (s t : Text) (c : Client)
    → IsDistinct c.subscription_list
    → has_subscription s (delete_subscription t c).subscription_list
      ≡ (has_subscription s c.subscription_list && not (text_eq s t))
unfolding delete_subscription
delete_subscription_lem s t c d = has_subscription-erase s t c.subscription_list d
