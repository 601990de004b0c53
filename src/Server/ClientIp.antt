-- ===== src/Server/ClientIp.antt =====
-- `resolveClientIP` of internal/server/middleware.go. Text is the list of its bytes.
use district_scheduler.Common.{
  ℕ, ◌≡◌, refl, sym, ap, ◌∙◌, inl, inr, Bool, true, false, not, ◌||◌, Option, none, some, List, [],
  ◌∷◌, ◌++◌, arith, ◌==◌, if◌then◌else◌, Bool-cases, Option-cases, any,
}
use mathlib.Core.List.{append_assoc}

-- What Go's `net` package says of addresses: `read` is `net.ParseIP` of an entry without the white space
-- around it, as the text that the address prints as, and `trusts` whether a text is an address of one of the
-- trusted networks (`ipInAny`).
pub record Addresses : Type 0 where
  pub read : List ℕ → Option (List ℕ)
  pub trusts : List ℕ → Bool

-- `strings.Join(lines, ",")`
unfoldable pub join_lines : List (List ℕ) → List ℕ
join_lines [] = []
join_lines (l ∷ []) = l
join_lines (l ∷ m ∷ ls) = l ++ b',' ∷ join_lines (m ∷ ls)

abbrev pub cons_first : ℕ → List (List ℕ) → List (List ℕ)
cons_first c [] = (c ∷ []) ∷ []
cons_first c (w ∷ ws) = (c ∷ w) ∷ ws

-- `strings.Split(text, ",")`
unfoldable pub split_hops : List ℕ → List (List ℕ)
split_hops [] = [] ∷ []
split_hops (c ∷ cs) = let rest = split_hops cs in if c == b',' then [] ∷ rest else cons_first c rest

unfoldable pub reverse_onto {ℓ} : {A : Type ℓ} → List A → List A → List A
reverse_onto [] acc = acc
reverse_onto (x ∷ xs) acc = reverse_onto xs (x ∷ acc)

abbrev pub is_empty_text : List ℕ → Bool
is_empty_text [] = true
is_empty_text (c ∷ cs) = false

abbrev pub or_peer : List ℕ → Option (List ℕ) → List ℕ
or_peer peer none = peer
or_peer peer (some ip) = ip

module _ (a : Addresses) where
  open a use {read, trusts}

  -- The loop over the hops from the right; `none` leaves the answer to the peer.
  unfoldable pub walk_hops : List (List ℕ) → Option (List ℕ)
  walk_hops [] = none
  walk_hops (h ∷ hs) =
      let rest = walk_hops hs in
      elim (read h) [ none ↦ none | some ip ↦ if trusts ip then rest else some ip ]

  -- `resolveClientIP`, of the peer's address and the lines of the X-Forwarded-For header.
  unfoldable pub resolve_client_ip : List ℕ → List (List ℕ) → List ℕ
  unfolding join_lines split_hops reverse_onto walk_hops
  resolve_client_ip peer lines =
      if not (trusts peer)
      then peer
      else if is_empty_text (join_lines lines)
      then peer
      else or_peer peer (walk_hops (reverse_onto (split_hops (join_lines lines)) []))

  -- Some hop ends the walk: it is no address, or one that is not trusted.
  abbrev pub ends_walk : List ℕ → Bool
  ends_walk h = elim (read h) [ none ↦ true | some ip ↦ not (trusts ip) ]

  walk_hops-append :
      (near far : List (List ℕ))
      → any ends_walk near ≡ true
      → walk_hops (near ++ far) ≡ walk_hops near
  unfolding walk_hops
  walk_hops-append [] far h = absurd (cc)
  walk_hops-append (n ∷ ns) far h = elim (Option-cases (read n)) [
    | inl e ↦ ground arith
    | inr (ip, e) ↦ ground (arith, walk_hops-append ns far)
  ]

  any-reverse_onto :
      (p : List ℕ → Bool) (xs acc : List (List ℕ))
      → any p (reverse_onto xs acc) ≡ (any p xs || any p acc)
  unfolding reverse_onto
  any-reverse_onto p [] acc = refl
  any-reverse_onto p (x ∷ xs) acc = ground (arith, any-reverse_onto p xs (x ∷ acc))

reverse_onto-acc {ℓ} :
    {A : Type ℓ} (xs acc : List A) → reverse_onto xs acc ≡ (reverse_onto xs [] ++ acc)
unfolding reverse_onto
reverse_onto-acc [] acc = refl
reverse_onto-acc (x ∷ xs) acc =
    reverse_onto-acc xs (x ∷ acc)
    ∙ sym (append_assoc (reverse_onto xs []) (x ∷ []) acc)
    ∙ ap (λ ys. ys ++ acc) (sym (reverse_onto-acc xs (x ∷ [])))

reverse_onto-append {ℓ} :
    {A : Type ℓ} (xs ys acc : List A)
    → reverse_onto (xs ++ ys) acc ≡ reverse_onto ys (reverse_onto xs acc)
unfolding reverse_onto
reverse_onto-append [] ys acc = refl
reverse_onto-append (x ∷ xs) ys acc = reverse_onto-append xs ys (x ∷ acc)

split_hops-some : (cs : List ℕ) → (w : List ℕ) × (ws : List (List ℕ)) × (split_hops cs ≡ w ∷ ws)
unfolding split_hops
split_hops-some [] = ([], [], refl)
split_hops-some (c ∷ cs) =
    let (w, ws, e) = split_hops-some cs in
    elim (Bool-cases (c == b',')) [
      | inl h ↦ ([], w ∷ ws, ground arith)
      | inr h ↦ (c ∷ w, ws, ground arith)
    ]

-- Joined lines split into the hops of the lines in turn.
split_hops-comma : (l m : List ℕ) → split_hops (l ++ b',' ∷ m) ≡ (split_hops l ++ split_hops m)
unfolding split_hops
split_hops-comma [] m = refl
split_hops-comma (c ∷ cs) m =
    let (w, ws, e) = split_hops-some cs in ground (arith, split_hops-comma cs m)

join_lines-append :
    (f : List ℕ) (fs : List (List ℕ)) (l : List ℕ) (ls : List (List ℕ))
    → join_lines (f ∷ (fs ++ l ∷ ls)) ≡ (join_lines (f ∷ fs) ++ b',' ∷ join_lines (l ∷ ls))
unfolding join_lines
join_lines-append f [] l ls = refl
join_lines-append f (g ∷ gs) l ls =
    ap (λ t. f ++ b',' ∷ t) (join_lines-append g gs l ls)
    ∙ sym (append_assoc f (b',' ∷ join_lines (g ∷ gs)) (b',' ∷ join_lines (l ∷ ls)))

is_empty_text-comma : (l m : List ℕ) → is_empty_text (l ++ b',' ∷ m) ≡ false
is_empty_text-comma [] m = refl
is_empty_text-comma (c ∷ cs) m = refl

-- The lines that a client sends ahead of those that the proxies add.
walk_hops-forged :
    (a : Addresses) (f : List ℕ) (fs : List (List ℕ)) (l : List ℕ) (ls : List (List ℕ))
    → any (ends_walk a) (split_hops (join_lines (l ∷ ls))) ≡ true
    → walk_hops a (reverse_onto (split_hops (join_lines (f ∷ (fs ++ l ∷ ls)))) [])
      ≡ walk_hops a (reverse_onto (split_hops (join_lines (l ∷ ls))) [])
walk_hops-forged a f fs l ls h =
    let far = split_hops (join_lines (f ∷ fs)) in
    let near = split_hops (join_lines (l ∷ ls)) in
    ap (λ t. walk_hops a (reverse_onto (split_hops t) [])) (join_lines-append f fs l ls)
    ∙ ap (λ t. walk_hops a (reverse_onto t []))
        (split_hops-comma (join_lines (f ∷ fs)) (join_lines (l ∷ ls)))
    ∙ ap (walk_hops a)
        (reverse_onto-append far near [] ∙ reverse_onto-acc near (reverse_onto far []))
    ∙ walk_hops-append a (reverse_onto near []) (reverse_onto far [])
        (any-reverse_onto a (ends_walk a) near [] ∙ ground (arith, h))

walk_hops-empty :
    (a : Addresses) (t : List ℕ)
    → a.read [] ≡ none
    → is_empty_text t ≡ true
    → walk_hops a (reverse_onto (split_hops t) []) ≡ none
unfolding walk_hops reverse_onto split_hops
walk_hops-empty a [] r h = ground arith
walk_hops-empty a (c ∷ cs) r h = absurd (cc)

resolve_client_ip-trusted :
    (a : Addresses) (peer : List ℕ) (lines : List (List ℕ))
    → a.trusts peer ≡ true
    → is_empty_text (join_lines lines) ≡ false
    → resolve_client_ip a peer lines
      ≡ or_peer peer (walk_hops a (reverse_onto (split_hops (join_lines lines)) []))
unfolding resolve_client_ip
resolve_client_ip-trusted a peer lines t h = ground arith

resolve_client_ip-nothing :
    (a : Addresses) (peer : List ℕ) (lines : List (List ℕ))
    → is_empty_text (join_lines lines) ≡ true
    → resolve_client_ip a peer lines ≡ peer
unfolding resolve_client_ip
resolve_client_ip-nothing a peer lines h = ground arith

-- A client cannot choose its address: lines of X-Forwarded-For ahead of those that the proxies add change
-- nothing, as soon as one hop of the proxies' lines is not a trusted address; and a peer that is not
-- trusted is answered with its own address, whatever lines it sends. The empty text reads as no address.
pub client_ip_unforged :
    (a : Addresses) (peer : List ℕ) (forged : List (List ℕ)) (l : List ℕ) (ls : List (List ℕ))
    → a.read [] ≡ none
    → any (ends_walk a) (split_hops (join_lines (l ∷ ls))) ≡ true
    → (resolve_client_ip a peer (forged ++ l ∷ ls) ≡ resolve_client_ip a peer (l ∷ ls))
      × (a.trusts peer ≡ false → resolve_client_ip a peer (forged ++ l ∷ ls) ≡ peer)
unfolding resolve_client_ip
client_ip_unforged a peer [] l ls r h = (refl, λ t. ground arith)
client_ip_unforged a peer (f ∷ fs) l ls r h = elim (Bool-cases (a.trusts peer)) [
  | inr untrusted ↦ (ground arith, λ t. ground arith)
  | inl trusted ↦ (
    elim (Bool-cases (is_empty_text (join_lines (l ∷ ls)))) [
      | inr some_text ↦
          resolve_client_ip-trusted a peer (f ∷ (fs ++ l ∷ ls)) trusted (
            ap is_empty_text (join_lines-append f fs l ls)
            ∙ is_empty_text-comma (join_lines (f ∷ fs)) (join_lines (l ∷ ls)))
          ∙ ap (or_peer peer) (walk_hops-forged a f fs l ls h)
          ∙ sym (resolve_client_ip-trusted a peer (l ∷ ls) trusted some_text)
      | inl nothing ↦
          resolve_client_ip-trusted a peer (f ∷ (fs ++ l ∷ ls)) trusted (
            ap is_empty_text (join_lines-append f fs l ls)
            ∙ is_empty_text-comma (join_lines (f ∷ fs)) (join_lines (l ∷ ls)))
          ∙ ap (or_peer peer) (walk_hops-forged a f fs l ls h)
          ∙ ap (or_peer peer) (walk_hops-empty a (join_lines (l ∷ ls)) r nothing)
          ∙ sym (resolve_client_ip-nothing a peer (l ∷ ls) nothing)
    ],
    λ t. absurd (ground arith),
  )
]
