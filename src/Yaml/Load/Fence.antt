-- ===== src/Yaml/Load/Fence.antt =====
-- An answer in a fence.
use pr_insight.Base.{ℕ, Bool, false, ◌++◌, ◌≡◌, ◌==◌, refl, ap, ◌∙◌}
use pr_insight.Base.Fail.{returned}
use pr_insight.Base.Text.{
  Str, codes, lstrip_by, rstrip_by, rstrip, is_space, remove_prefix, remove_suffix,
}
use pr_insight.Yaml.Load.First.{load_yaml-first_read}
use pr_insight.Yaml.Load.{Reader, Keys, clean, load_yaml}
use mathlib.Core.List.{reverse, reverse-append, reverse-reverse}

abbrev pub fenced : Str → Str
fenced s = codes "```yaml" ++ (s ++ codes "```")

-- a text that ends in a character which stays is not shortened
rstrip_by-fence :
    (p : ℕ → Bool) (s : Str) → p b'`' ≡ false → rstrip_by p (s ++ codes "```") ≡ s ++ codes "```"
unfolding rstrip_by lstrip_by
rstrip_by-fence p s h =
    rw (reverse-append s (codes "```"), h)
      (reverse-append (codes "```") (reverse s)
        ∙ ap (λ (t : Str). t ++ codes "```") (reverse-reverse s))

remove_suffix-fence : (s : Str) → remove_suffix (codes "```") (s ++ codes "```") ≡ s
unfolding remove_suffix
remove_suffix-fence s = rw (reverse-append s (codes "```")) (reverse-reverse s)

clean-fenced : (s : Str) → clean (fenced s) ≡ s
unfolding clean
clean-fenced s =
    ap
      (λ t.
        remove_suffix (codes "```")
          (rstrip (remove_prefix (codes "```yaml") (remove_prefix (codes "yaml") t))))
      (rstrip_by-fence (λ c. c == 10) (codes "```yaml" ++ s) refl)
    ∙ (ap (remove_suffix (codes "```")) (rstrip_by-fence is_space s refl) ∙ remove_suffix-fence s)

-- An answer in a YAML fence is read as what stands in the fence, whatever that is: an answer that
-- YAML reads comes back from a fence as it was.
pub load_yaml-fenced :
    {D : Type 0} (r : Reader D) (k : Keys) (s : Str) (d : D)
    → r.safe_load s ≡ returned d
    → load_yaml r k (fenced s) ≡ d
load_yaml-fenced r k s d h = load_yaml-first_read r k (fenced s) ∙ rw (clean-fenced s, h)
