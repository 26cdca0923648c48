-- ===== src/Quic/Spans.antt =====
-- The spans of go/http3/internal/quic/buffer.go: a list in order, of which no two touch.
pub mod Laws
use event_work_balance.Base.{
  ℕ, ◌+◌, List, [], ◌∷◌, Bool, leb, ltb, if◌then◌else◌, min, max, ◌||◌, ◌&&◌, false,
}

pub record Span : Type 0 where
  pub off : ℕ
  pub end : ℕ

-- The span with all those at the front of the list that it touches.
unfoldable pub absorb : Span → List Span → List Span
absorb s [] = s ∷ []
absorb s (t ∷ ts) =
    let merged = absorb (record { off = min s.off t.off; end = max s.end t.end }) ts in
    if leb t.off s.end then merged else s ∷ t ∷ ts

-- From the place that sort.Search finds: the first span that does not end before it.
unfoldable pub place : Span → List Span → List Span
unfolding absorb
place s [] = s ∷ []
place s (t ∷ ts) = let rest = place s ts in if ltb t.end s.off then t ∷ rest else absorb s (t ∷ ts)

unfoldable pub add_span : List Span → Span → List Span
unfolding place
add_span spans s = if leb s.end s.off then spans else place s spans

-- Whether the offset lies in one of the spans.
abbrev pub inside : Span → ℕ → Bool
inside s x = leb s.off x && ltb x s.end

abbrev pub covers : List Span → ℕ → Bool
covers [] x = false
covers (s ∷ ss) x = inside s x || covers ss x
