-- ===== src/Contract/Membership/Laws.antt =====
-- Who is a member of which group.
use key_manager.Base.{◌≡◌, refl, ap, ◌∙◌, ◌↔◌, ◌⊎◌, inl, inr, true, ◌++◌, ◌∷◌, Bool-cases, arith}
use key_manager.Base.Text.{Str, codes, split, starts_with, ends_with}
use key_manager.Base.Text.Laws.{
  Lacks, split-append, split-Lacks_self, starts_with→append, starts_with-append, ends_with→append,
  ends_with-append, split_shape,
}
use key_manager.Contract.Membership.{first_or_empty, check_membership}

-- The part of an account in front of its first dot, or all of it.
abbrev pub FirstLabel : Str → Str → Type 0
FirstLabel account label =
    Lacks b'.' label × ((account ≡ label) ⊎ ((more : Str) × (account ≡ label ++ b'.' ∷ more)))

-- The group's name begins with the account's first label, or the account lies under .near or
-- .testnet; the last two do not look at the group.
abbrev pub IsMember : Str → Str → Type 0
IsMember group_id account_id =
    ((label : Str) × (rest : Str) × FirstLabel account_id label × (group_id ≡ label ++ rest))
    ⊎ (((name : Str) × (account_id ≡ name ++ codes ".near"))
        ⊎ ((name : Str) × (account_id ≡ name ++ codes ".testnet")))

first_or_empty-FirstLabel : (a : Str) → FirstLabel a (first_or_empty (split b'.' a))
first_or_empty-FirstLabel a = elim (split_shape b'.' a) [
  | inl (lacks, e) ↦ rw e (lacks, inl refl)
  | inr (label, more, lacks, shape, e) ↦ rw e (lacks, inr (more, shape))
]

FirstLabel-first_or_empty :
    (a label : Str) → FirstLabel a label → first_or_empty (split b'.' a) ≡ label
FirstLabel-first_or_empty a label (lacks, inl e) =
    ap (λ s. first_or_empty (split b'.' s)) e
    ∙ ap first_or_empty (split-Lacks_self b'.' label lacks)
FirstLabel-first_or_empty a label (lacks, inr (more, e)) =
    ap (λ s. first_or_empty (split b'.' s)) e
    ∙ ap first_or_empty (split-append b'.' label more lacks)

check_membership_sound : (g a : Str) → check_membership g a ≡ true → IsMember g a
unfolding check_membership
check_membership_sound g a h = elim (Bool-cases (starts_with g (first_or_empty (split b'.' a)))) [
  | inl own ↦
      let (rest, e) = starts_with→append g (first_or_empty (split b'.' a)) own in
      inl (first_or_empty (split b'.' a), rest, first_or_empty-FirstLabel a, e)
  | inr foreign ↦ elim (Bool-cases (ends_with a (codes ".near"))) [
    | inl near ↦ inr (inl (ends_with→append a (codes ".near") near))
    | inr far ↦ inr (inr (ends_with→append a (codes ".testnet") (ground arith)))
  ]
]

check_membership_complete : (g a : Str) → IsMember g a → check_membership g a ≡ true
unfolding check_membership
check_membership_complete g a (inl (label, rest, first, e)) =
    rw (FirstLabel-first_or_empty a label first) (rw e (rw (starts_with-append label rest)))
check_membership_complete g a (inr (inl (name, e))) =
    ground (arith, ap (λ s. ends_with s (codes ".near")) e, ends_with-append name (codes ".near"))
check_membership_complete g a (inr (inr (name, e))) =
    ground
      (arith, ap (λ s. ends_with s (codes ".testnet")) e, ends_with-append name (codes ".testnet"))

-- The check admits an account to a group exactly if the group's name begins with the account's
-- first label, or the account ends in ".near" or in ".testnet".
pub check_membership_iff : (g a : Str) → (check_membership g a ≡ true) ↔ IsMember g a
check_membership_iff g a = (check_membership_sound g a, check_membership_complete g a)

-- An account whose name ends in ".near" is a member of every group, so of the private group of
-- any other account.
pub check_membership-near : (g name : Str) → check_membership g (name ++ codes ".near") ≡ true
check_membership-near g name =
    check_membership_complete g (name ++ codes ".near") (inr (inl (name, refl)))
