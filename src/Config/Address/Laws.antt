-- ===== src/Config/Address/Laws.antt =====
-- flask_xxljob/config.py: the executor's address with the route prefix.
use flask_xxljob.Base.{
  ℕ, false, ◌≡◌, refl, ap, [], ◌∷◌, ◌++◌, is_empty, lstrip, rstrip, push_unless_end, Text, text,
  arith, inl, inr,
}
use flask_xxljob.Client.Post.{is_slash, join_url}
use flask_xxljob.Config.{ok}
use flask_xxljob.Config.Prefix.{normalize_prefix, drop_last_slash, starts_with_slash}
use flask_xxljob.Config.Prefix.Laws.{IsPath, normalize_prefix-IsPrefix}
use flask_xxljob.Config.Address.{normalize_address, apply_route_prefix}

append_nil : (s : Text) → s ++ [] ≡ s
append_nil [] = refl
append_nil (c ∷ s) = ap (λ t. c ∷ t) (append_nil s)

append_slash : (a s : Text) → a ++ text "/" ++ s ≡ a ++ 47 ∷ s
append_slash [] s = refl
append_slash (c ∷ a) s = ap (λ t. c ∷ t) (append_slash a s)

rstrip-push :
    (c : ℕ) (t : Text)
    → rstrip is_slash t ≡ t
    → rstrip is_slash (push_unless_end is_slash c t) ≡ push_unless_end is_slash c t
rstrip-push c [] h = ground arith
rstrip-push c (d ∷ t) h = rw h (ground arith)

rstrip_idem : (s : Text) → rstrip is_slash (rstrip is_slash s) ≡ rstrip is_slash s
rstrip_idem [] = refl
rstrip_idem (c ∷ s) = rstrip-push c (rstrip is_slash s) (rstrip_idem s)

rstrip-no_end : (s : Text) → drop_last_slash s ≡ s → rstrip is_slash s ≡ s
rstrip-no_end [] h = refl
rstrip-no_end (c ∷ []) h = ground arith
rstrip-no_end (c ∷ d ∷ s) h = rw (rstrip-no_end (d ∷ s) (ground arith)) refl

lstrip-no_start : (s : Text) → starts_with_slash s ≡ false → lstrip is_slash s ≡ s
lstrip-no_start [] h = refl
lstrip-no_start (c ∷ s) h = ground arith

join_url-IsPath :
    (base s : Text) → IsPath s → join_url base (47 ∷ s) ≡ rstrip is_slash base ++ 47 ∷ s
unfolding join_url
join_url-IsPath base s v =
    rw (lstrip-no_start s (ground (arith, v.single)), rstrip-no_end s v.no_end, v.nonempty)
      (append_slash (rstrip is_slash base) s)

trimmed : (s : Text) → rstrip is_slash (normalize_address s) ≡ normalize_address s
unfolding normalize_address
trimmed [] = refl
trimmed (c ∷ s) = rstrip_idem (c ∷ s)

-- The address that is registered is the configured one without the slashes at its end, followed by
-- the prefix that `_normalize_prefix` returns, when that address is not empty.
pub apply_route_prefix-append :
    (address prefix r : Text)
    → normalize_prefix prefix ≡ ok r
    → is_empty (normalize_address address) ≡ false
    → apply_route_prefix (normalize_address address) r ≡ normalize_address address ++ r
unfolding apply_route_prefix
apply_route_prefix-append address prefix r h given = elim (normalize_prefix-IsPrefix prefix r h) [
  | inl e ↦ rw (e, given, append_nil (normalize_address address)) refl
  | inr (s, e, v) ↦
      rw (e, given, join_url-IsPath (normalize_address address) s v, trimmed address) refl
]
