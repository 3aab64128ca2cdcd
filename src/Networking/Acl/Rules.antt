-- ===== src/Networking/Acl/Rules.antt =====
-- Which addresses `AccessControl::is_allowed` of src/networking/acl.rs lets in.
use mathlib.Core.Logic.{∥∥₁_elim}
use mathlib.Core.Bool.{Bool-set}
use mathlib.Core.List.{Perm, Permᴰ}
use layer4_lb.Prelude.{
  String, ◌≡◌, refl, ◌∙◌, ◌↔◌, ◌⊎◌, Bool, true, false, Option, none, some, List, [], ◌∷◌, is_empty,
  if◌then◌else◌, arith, All, Any, inl, inr,
}
use layer4_lb.Networking.Addr.{IpAddr}
use layer4_lb.Networking.Acl.{
  IpNetLib, AccessControl, is_allowed, allowed_by, denied_or, new, parse_cidrs, parse_strs,
}

module _ (lib : IpNetLib) where
  open lib use {IpNet, contains, net_from_str, ip_from_str, net_from_ip, contains-net_from_ip}

  abbrev pub Covers : IpAddr → IpNet → Type 0
  Covers addr net = contains net addr ≡ true

  allowed_by_iff :
      (nets : List IpNet) (addr : IpAddr)
      → (allowed_by lib nets addr ≡ true) ↔ Any (Covers addr) nets
  unfolding allowed_by
  allowed_by_iff [] addr = ground arith
  allowed_by_iff (net ∷ nets) addr = ground (arith, allowed_by_iff nets addr)

  denied_or_iff :
      (nets : List IpNet) (addr : IpAddr) (rest : Bool)
      → (denied_or lib nets addr rest ≡ true) ↔ ((¬ Any (Covers addr) nets) × (rest ≡ true))
  unfolding denied_or
  denied_or_iff [] addr rest = ground arith
  denied_or_iff (net ∷ nets) addr rest = ground (arith, denied_or_iff nets addr rest)

  default_or_allowed_iff :
      (nets : List IpNet) (addr : IpAddr)
      → ((if is_empty nets then true else allowed_by lib nets addr) ≡ true)
        ↔ ((nets ≡ []) ⊎ Any (Covers addr) nets)
  default_or_allowed_iff [] addr = ground arith
  default_or_allowed_iff (net ∷ nets) addr = ground (arith, allowed_by_iff (net ∷ nets) addr)

  -- An address is let in exactly when no network of the deny list contains it, and the allow list
  -- is empty or has a network that contains it: a deny entry wins over every allow entry.
  pub is_allowed_iff :
      (acl : AccessControl IpNet) (addr : IpAddr)
      → (is_allowed lib acl addr ≡ true) ↔ (
          (¬ Any (Covers addr) acl.deny_list)
          × ((acl.allow_list ≡ []) ⊎ Any (Covers addr) acl.allow_list))
  unfolding is_allowed
  is_allowed_iff acl addr =
      let allow = if is_empty acl.allow_list then true else allowed_by lib acl.allow_list addr in
      ground
        (arith, denied_or_iff acl.deny_list addr allow, default_or_allowed_iff acl.allow_list addr)

  denied_or-perm :
      {xs ys : List IpNet}
      → Permᴰ xs ys
      → (addr : IpAddr) (rest : Bool) → denied_or lib xs addr rest ≡ denied_or lib ys addr rest
  unfolding denied_or
  denied_or-perm Permᴰ.nil addr rest = refl
  denied_or-perm (Permᴰ.cons e p) addr rest = ground (arith, denied_or-perm p addr rest)
  denied_or-perm (Permᴰ.swap e f) addr rest = ground arith
  denied_or-perm (Permᴰ.trans p q) addr rest =
      denied_or-perm p addr rest ∙ denied_or-perm q addr rest

  allow-perm :
      {xs ys : List IpNet}
      → Permᴰ xs ys
      → (addr : IpAddr)
      → (allowed_by lib xs addr ≡ allowed_by lib ys addr) × (is_empty xs ≡ is_empty ys)
  unfolding allowed_by
  allow-perm Permᴰ.nil addr = (refl, refl)
  allow-perm (Permᴰ.cons e p) addr = ground (arith, allow-perm p addr)
  allow-perm (Permᴰ.swap e f) addr = ground arith
  allow-perm (Permᴰ.trans p q) addr = ground (arith, allow-perm p addr, allow-perm q addr)

  is_allowed_cong :
      (acl acl' : AccessControl IpNet) (addr : IpAddr)
      → (allowed_by lib acl.allow_list addr ≡ allowed_by lib acl'.allow_list addr)
        × (is_empty acl.allow_list ≡ is_empty acl'.allow_list)
      → ((rest : Bool)
          → denied_or lib acl.deny_list addr rest ≡ denied_or lib acl'.deny_list addr rest)
      → is_allowed lib acl addr ≡ is_allowed lib acl' addr
  unfolding is_allowed
  is_allowed_cong acl acl' addr h k = rw (h.0, h.1) (k _)

  -- The order in which the two lists are written makes no difference to any decision.
  pub is_allowed-perm :
      (acl acl' : AccessControl IpNet) (addr : IpAddr)
      → Perm acl.allow_list acl'.allow_list
      → Perm acl.deny_list acl'.deny_list
      → is_allowed lib acl addr ≡ is_allowed lib acl' addr
  unfolding is_allowed
  is_allowed-perm acl acl' addr allows denies = ∥∥₁_elim allows (Bool-set _ _) λ p.
      ∥∥₁_elim denies (Bool-set _ _)
        λ q. is_allowed_cong acl acl' addr (allow-perm p addr) (denied_or-perm q addr)

  parse_strs_has :
      (strs : List String) (s : String) (addr : IpAddr)
      → Any (λ t. t ≡ s) strs
      → net_from_str s ≡ none
      → ip_from_str s ≡ some addr
      → Any (Covers addr) (parse_strs lib strs)
  unfolding parse_strs
  parse_strs_has [] s addr h n p = h
  parse_strs_has (t ∷ strs) s addr (inl e) n p = ground (arith, contains-net_from_ip addr addr, e)
  parse_strs_has (t ∷ strs) s addr (inr h) n p = ground (arith, parse_strs_has strs s addr h n p)

  -- A deny entry that is no network but parses as a plain address shuts that address out,
  -- whatever the two lists hold besides.
  pub plain_ip_denied :
      (allow : Option (List String)) (strs : List String) (s : String) (addr : IpAddr)
      → Any (λ t. t ≡ s) strs
      → net_from_str s ≡ none
      → ip_from_str s ≡ some addr
      → is_allowed lib (new lib allow (some strs)) addr ≡ false
  unfolding new
  plain_ip_denied allow strs s addr h n p =
      ground
        (arith, parse_strs_has strs s addr h n p, is_allowed_iff (new lib allow (some strs)) addr)

  parse_strs_unreadable :
      (strs : List String)
      → All (λ s. (net_from_str s ≡ none) × (ip_from_str s ≡ none)) strs
      → parse_strs lib strs ≡ []
  unfolding parse_strs
  parse_strs_unreadable [] h = refl
  parse_strs_unreadable (s ∷ strs) h = ground (arith, parse_strs_unreadable strs h.1)

  -- An allow list of which no entry can be read lets in every address that the deny list does not
  -- shut out: it acts as no allow list at all, and not as one that matches nothing.
  pub unreadable_allow_list_is_open :
      (strs : List String) (deny : Option (List String)) (addr : IpAddr)
      → All (λ s. (net_from_str s ≡ none) × (ip_from_str s ≡ none)) strs
      → (is_allowed lib (new lib (some strs) deny) addr ≡ true)
        ↔ (¬ Any (Covers addr) (parse_cidrs lib deny))
  unfolding new
  unreadable_allow_list_is_open strs deny addr h =
      ground (arith, parse_strs_unreadable strs h, is_allowed_iff (new lib (some strs) deny) addr)
