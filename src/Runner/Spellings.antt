-- ===== src/Runner/Spellings.antt =====
-- Which spellings of the canonical repository's URL the publish check of tools/runner.go takes.
use grpc_tunnel.Prelude.{
  ◌≡◌, ◌⊎◌, ◌↔◌, inl, inr, refl, ap, subst, ◌∙◌, ◌++◌, drop, length, if◌then◌else◌, Bool-cases,
}
use grpc_tunnel.Prelude.Text.{
  Text, lit, trim_space, trim_suffix, trim_suffix-cases, has_suffix, has_prefix, has_prefix-split,
  text_eq,
}
use grpc_tunnel.Runner.Repository.{ssh_prefix, https_prefix, normalize_repository_url}

-- The four spellings: by HTTPS or by SSH, with .git or without.
abbrev pub IsSpelling : Text → Type 0
IsSpelling t =
    (t ≡ lit "https://github.com/monstercameron/grpc-tunnel")
    ⊎ ((t ≡ lit "https://github.com/monstercameron/grpc-tunnel.git")
        ⊎ ((t ≡ lit "git@github.com:monstercameron/grpc-tunnel")
            ⊎ (t ≡ lit "git@github.com:monstercameron/grpc-tunnel.git")))

abbrev canonical : Text
canonical = lit "https://github.com/monstercameron/grpc-tunnel"

abbrev over_https : Text → Text
over_https t = if has_prefix t ssh_prefix then https_prefix ++ drop (length ssh_prefix) t else t

over_https-cases :
    (t : Text)
    → over_https t ≡ canonical
    → (t ≡ canonical) ⊎ (t ≡ lit "git@github.com:monstercameron/grpc-tunnel")
over_https-cases t h = elim (Bool-cases (has_prefix t ssh_prefix)) [
  | inl ssh ↦
      let (rest, e) = has_prefix-split t ssh_prefix ssh in
      let swapped : https_prefix ++ drop (length ssh_prefix) t ≡ canonical = rw ssh at h in
      let plain : https_prefix ++ rest ≡ canonical =
        subst (λ s. https_prefix ++ drop (length ssh_prefix) s ≡ canonical) e swapped in
      inr (e ∙ ap (λ s. ssh_prefix ++ s) (ap (drop 19) plain))
  | inr plain ↦ inl (rw plain at h)
]

with_suffix-IsSpelling :
    (t stripped : Text)
    → (t ≡ stripped ++ lit ".git") ⊎ (t ≡ stripped)
    → (stripped ≡ canonical) ⊎ (stripped ≡ lit "git@github.com:monstercameron/grpc-tunnel")
    → IsSpelling t
with_suffix-IsSpelling t stripped (inl e) (inl c) = inr (inl (e ∙ ap (λ s. s ++ lit ".git") c))
with_suffix-IsSpelling t stripped (inl e) (inr c) =
    inr (inr (inr (e ∙ ap (λ s. s ++ lit ".git") c)))
with_suffix-IsSpelling t stripped (inr e) (inl c) = inl (e ∙ c)
with_suffix-IsSpelling t stripped (inr e) (inr c) = inr (inr (inl (e ∙ c)))

spelled-normalized : (t : Text) → IsSpelling t → over_https (trim_suffix t (lit ".git")) ≡ canonical
unfolding trim_suffix has_suffix has_prefix text_eq
spelled-normalized t (inl e) = rw e refl
spelled-normalized t (inr (inl e)) = rw e refl
spelled-normalized t (inr (inr (inl e))) = rw e refl
spelled-normalized t (inr (inr (inr e))) = rw e refl

-- A URL has the canonical repository's normal form exactly if, trimmed, it is one of the four spellings.
pub normalize_repository_url-IsSpelling :
    (url : Text)
    → (normalize_repository_url url ≡ lit "https://github.com/monstercameron/grpc-tunnel")
      ↔ IsSpelling (trim_space url)
unfolding normalize_repository_url
normalize_repository_url-IsSpelling url = (
  λ h.
      with_suffix-IsSpelling (trim_space url) (trim_suffix (trim_space url) (lit ".git"))
        (trim_suffix-cases (trim_space url) (lit ".git"))
        (over_https-cases (trim_suffix (trim_space url) (lit ".git")) h),
  λ s. spelled-normalized (trim_space url) s,
)
