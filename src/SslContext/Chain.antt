-- ===== src/SslContext/Chain.antt =====
-- The certificate chain is the paths that were added, each once, in the order of their first
-- addition.
use mathlib.Core.Path.{subst}
use text.Mathlib.Text.{◌==◌ as str_eq}
use text.Mathlib.TextEquality.{eq_iff}
use libsiot.Base.{
  ◌≡◌, ◌↔◌, ◌⊎◌, refl, sym, ap, ◌∙◌, true, false, String, List, [], ◌∷◌, ◌++◌, append_assoc,
  append-nil, Bool-cases, inl, inr,
}
use libsiot.SslContext.{ServerSslContext, server_ssl_context, has_path, add_chain_cert_path}

-- A path is in a list.
abbrev pub Holds : String → List String → Type 0
Holds p [] = ⊥
Holds p (q ∷ qs) = (q ≡ p) ⊎ Holds p qs

-- The paths of a list that are not in `seen`, each at its first place: `FirstUses seen ps out`.
pub data FirstUses : List String → List String → List String → Type 0 where
  done : {seen : List String} → FirstUses seen [] []
  again :
      {seen ps out : List String} (p : String)
      → Holds p seen
      → FirstUses seen ps out
      → FirstUses seen (p ∷ ps) out
  fresh :
      {seen ps out : List String} (p : String)
      → ¬ (Holds p seen)
      → FirstUses (seen ++ p ∷ []) ps out
      → FirstUses seen (p ∷ ps) (p ∷ out)

unfoldable pub add_all : List String → ServerSslContext → ServerSslContext
add_all [] c = c
add_all (p ∷ ps) c = add_all ps (add_chain_cert_path p c)

-- No path is there twice.
abbrev pub IsDistinct : List String → Type 0
IsDistinct [] = Unit
IsDistinct (p ∷ ps) = (¬ (Holds p ps)) × IsDistinct ps

-- The loop of `AddChainCertPath` decides whether a path is there.
has_path-Holds : (p : String) (ps : List String) → (has_path p ps ≡ true) ↔ Holds p ps
unfolding has_path
has_path-Holds p [] = (λ e. absurd (cc), λ h. absurd h)
has_path-Holds p (q ∷ qs) =
    let (there, back) = has_path-Holds p qs in
    let (same, equal) = eq_iff q p in
    (
      λ e. elim (Bool-cases (str_eq q p)) [
        | inl here ↦ inl (same here)
        | inr other ↦ inr (there (rw other at e))
      ],
      λ h. elim h [
        | inl here ↦ rw (equal here) refl
        | inr later ↦ elim (Bool-cases (str_eq q p)) [
          | inl here ↦ rw here refl
          | inr other ↦ rw other (back later)
        ]
      ],
    )

add_chain-old :
    (p : String) (c : ServerSslContext)
    → has_path p c.chain_certs ≡ true
    → add_chain_cert_path p c ≡ c
unfolding add_chain_cert_path
add_chain-old p c h = rw h

abbrev with_path : String → ServerSslContext → ServerSslContext
with_path p c = record c { chain_certs = c.chain_certs ++ p ∷ [] }

add_chain-new :
    (p : String) (c : ServerSslContext)
    → has_path p c.chain_certs ≡ false
    → add_chain_cert_path p c ≡ with_path p c
unfolding add_chain_cert_path
add_chain-new p c h = rw h

absent : (p : String) (ps : List String) → has_path p ps ≡ false → ¬ (Holds p ps)
absent p ps e h = let there = (has_path-Holds p ps).1 h in cc

add_all-chain :
    (ps : List String) (c : ServerSslContext)
    → (out : List String) × FirstUses c.chain_certs ps out
      × ((add_all ps c).chain_certs ≡ c.chain_certs ++ out)
unfolding add_all
add_all-chain [] c = ([], done, sym (append-nil c.chain_certs))
add_all-chain (p ∷ ps) c = elim (Bool-cases (has_path p c.chain_certs)) [
  | inl old ↦
      let (out, uses, e) = add_all-chain ps c in
      (
        out,
        again p ((has_path-Holds p c.chain_certs).0 old) uses,
        ap (λ x. (add_all ps x).chain_certs) (add_chain-old p c old) ∙ e,
      )
  | inr new ↦
      let (out, uses, e) = add_all-chain ps (with_path p c) in
      (
        p ∷ out,
        fresh p (absent p c.chain_certs new) uses,
        ap (λ x. (add_all ps x).chain_certs) (add_chain-new p c new)
            ∙ e
            ∙ append_assoc c.chain_certs (p ∷ []) out,
      )
]

Holds-snoc : (q p : String) (ps : List String) → Holds q (ps ++ p ∷ []) ↔ (Holds q ps ⊎ (p ≡ q))
Holds-snoc q p [] = (
  λ h. elim h [ inl e ↦ inr e | inr n ↦ absurd n ],
  λ h. elim h [ inl n ↦ absurd n | inr e ↦ inl e ],
)
Holds-snoc q p (r ∷ ps) =
    let (there, back) = Holds-snoc q p ps in
    (
      λ h. elim h [
        | inl e ↦ inl (inl e)
        | inr later ↦ elim (there later) [ inl k ↦ inl (inr k) | inr e ↦ inr e ]
      ],
      λ h. elim h [
        | inl (inl e) ↦ inl e
        | inl (inr k) ↦ inr (back (inl k))
        | inr e ↦ inr (back (inr e))
      ],
    )

IsDistinct-snoc :
    (p : String) (ps : List String) → ¬ (Holds p ps) → IsDistinct ps → IsDistinct (ps ++ p ∷ [])
IsDistinct-snoc p [] h d = (λ n. n, tt)
IsDistinct-snoc p (q ∷ ps) h (new, d) = (
  λ k. elim ((Holds-snoc q p ps).0 k) [ inl there ↦ new there | inr e ↦ h (inl (sym e)) ],
  IsDistinct-snoc p ps (λ k. h (inr k)) d,
)

-- What is behind paths that are distinct, at their first places, is distinct from them.
FirstUses-IsDistinct :
    {seen ps out : List String} → FirstUses seen ps out → IsDistinct seen → IsDistinct (seen ++ out)
FirstUses-IsDistinct {seen} done d = subst IsDistinct (sym (append-nil seen)) d
FirstUses-IsDistinct (again p h uses) d = FirstUses-IsDistinct uses d
FirstUses-IsDistinct {seen} (fresh {out = out} p h uses) d =
    subst IsDistinct (append_assoc seen (p ∷ []) out)
      (FirstUses-IsDistinct uses (IsDistinct-snoc p seen h d))

-- After any additions to a new context, the chain holds the added paths at their first places, in
-- this order, and no path twice.
pub add_all_chain :
    (cert key : String) (ps : List String)
    → let chain = (add_all ps (server_ssl_context cert key)).chain_certs in
      FirstUses [] ps chain × IsDistinct chain
unfolding server_ssl_context
add_all_chain cert key ps =
    let (out, uses, e) = add_all-chain ps (server_ssl_context cert key) in
    (subst (FirstUses [] ps) (sym e) uses, subst IsDistinct (sym e) (FirstUses-IsDistinct uses tt))
