-- ===== src/Reply/Loop.antt =====
-- The loop of ngx_http_tnt_filter against the reference.
use nginx_upstream_module.Common.{
  ℕ, zero, suc, ◌≢◌, Option, Bytes, ◌≡◌, [], if◌then◌else◌, ◌<◌, some, none, ◌⊎◌, inl, inr, subst,
  sym, arith, ◌≤◌, length, false, refl,
}
use nginx_upstream_module.Reply.Filter.{
  Codecs, filter, ngx_ok, ngx_error, Reader, Rc, Filtered, Delivery, ngx_again, filter_reply,
  is_again,
}
use nginx_upstream_module.Reply.Chunks.{Call, Is, again, stopped, broken, Call-filter_reply}
use nginx_upstream_module.Reply.Reference.{Phase, header, reads}

module _ (c : Codecs) where
  filter-suc :
      (fuel : ℕ) (r : Reader) (d : Delivery) (input : Bytes)
      → filter c (suc fuel) r d input ≡ (
          let f = filter_reply c r d input in if is_again f.3 then filter c fuel f.0 f.1 f.2 else f)
  unfolding filter
  filter-suc fuel r d input = refl

  not_again : (q : Rc) → q ≢ ngx_again → is_again q ≡ false
  not_again ngx_ok h = refl
  not_again ngx_error h = refl
  not_again ngx_again h = absurd (h refl)

  -- The filter and the reference come to the same, or both find a bad length.
  abbrev pub Agrees : Filtered c → Option (Phase × Delivery) → Type 0
  Agrees f o =
      ((p : Phase) × Is f.0 p × (f.2 ≡ []) × (f.3 ≢ ngx_again) × (o ≡ some (p, f.1)))
      ⊎ ((f.3 ≡ ngx_error) × (o ≡ none))

  Agrees-if :
      (f g : Filtered c) (o : Option (Phase × Delivery)) (n : ℕ)
      → Call c f o n
      → (f.3 ≡ ngx_again → Agrees g o)
      → Agrees (if is_again f.3 then g else f) o
  Agrees-if f g o n (again e i l h s) k =
      subst (λ q. Agrees (if is_again q then g else f) o) (sym e) (k e)
  Agrees-if f g o n (stopped p i e ne s) k = rw (not_again f.3 ne) (inl (p, i, e, ne, s))
  Agrees-if f g o n (broken e s) k =
      subst (λ q. Agrees (if is_again q then g else f) o) (sym e) (inr (e, s))

  goes_on :
      (f : Filtered c) (o : Option (Phase × Delivery)) (n : ℕ)
      → Call c f o n
      → f.3 ≡ ngx_again
      → Is f.0 (header []) × (length f.2 < n) × (0 < length f.2) × (reads c (header []) f.1 f.2 ≡ o)
  goes_on f o n (again e i l h s) a = (i, l, h, s)
  goes_on f o n (stopped p i e ne s) a = absurd (ne a)
  goes_on f o n (broken e s) a = cc

  -- On a buffer that is not empty, with as much fuel as it has bytes and a reader that is in a
  -- phase of the reference: the loop of the filter ends, with every byte taken, with the reader in
  -- the phase and the replies delivered that the reference comes to; or it ends with NGX_ERROR
  -- where the reference finds a bad length.
  pub filter-Agrees :
      (fuel : ℕ) (p : Phase) (r : Reader) (d : Delivery) (input : Bytes)
      → Is r p
      → 0 < length input
      → length input ≤ fuel
      → Agrees (filter c fuel r d input) (reads c p d input)
  filter-Agrees zero p r d input i h le = absurd (omega arith)
  filter-Agrees (suc fuel) p r d input i h le =
      let f = filter_reply c r d input in
      let call = Call-filter_reply c p r d input i h in
      rw (filter-suc fuel r d input) (
        Agrees-if f (filter c fuel f.0 f.1 f.2) (reads c p d input) (length input) call (λ a.
          let g = goes_on f (reads c p d input) (length input) call a in
          subst (Agrees (filter c fuel f.0 f.1 f.2)) g.3
            (filter-Agrees fuel (header []) f.0 f.1 f.2 g.0 g.2 (omega (arith, g.1)))))
