-- ===== src/Plugin/Solid.antt =====
-- Texts without white space at their ends, put together from parts.
use playgroundjs_plugin.Plugin.Trim.{is_blank, IsSolid}
use playgroundjs_plugin.Common.{
  ◌≡◌, refl, ℕ, Bytes, ◌++◌, false, ◌∷◌, [], All, ap, ◌∙◌, append_assoc, ◌<◌, length, arith,
}

-- The head of `a` and the last byte of `b` decide.
pub IsSolid-join :
    {a : Bytes} (m : Bytes) {b : Bytes} → IsSolid a → IsSolid b → IsSolid (a ++ (m ++ b))
IsSolid-join {a} m {b} s t = record {
  head = s.head;
  behind = s.behind ++ (m ++ b);
  front = a ++ (m ++ t.front);
  last = t.last;
  from_head = ap (λ u. u ++ (m ++ b)) s.from_head;
  from_last = ap (λ u. a ++ (m ++ u)) t.from_last ∙ simp append_assoc;
  head_solid = s.head_solid;
  last_solid = t.last_solid;
}

pub IsSolid-append : {a b : Bytes} → IsSolid a → IsSolid b → IsSolid (a ++ b)
IsSolid-append {a} {b} s t = IsSolid-join [] s t

pub IsSolid-one : (c : ℕ) → is_blank c ≡ false → IsSolid (c ∷ [])
IsSolid-one c e = record {
  head = c;
  behind = [];
  front = [];
  last = c;
  from_head = refl;
  from_last = refl;
  head_solid = e;
  last_solid = e;
}

-- Bytes none of which is white space.
pub IsSolid-All :
    (c : ℕ) (s : Bytes) → is_blank c ≡ false → All (λ x. is_blank x ≡ false) s → IsSolid (c ∷ s)
IsSolid-All c [] e h = IsSolid-one c e
IsSolid-All c (d ∷ s) e h = IsSolid-append (IsSolid-one c e) (IsSolid-All d s h.0 h.1)

pub IsSolid-length : {t : Bytes} → IsSolid t → 0 < length t
IsSolid-length s = omega (arith, ap length s.from_head)
