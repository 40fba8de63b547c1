-- ===== src/Policy/Spacing.antt =====
-- The grants of a limit over any sequence of calls.
use mvclight.Base.{ℕ, ◌≡◌, true, List, [], ◌∷◌, arith, if◌then◌else◌, Bool-cases, inl, inr}
use mvclight.Base.Int.{ℤ, pos, ◌≤ℤ◌, ◌+ℤ◌, +ℤ_parts, -ℤ_parts}
use mvclight.Policy.{PeerPolicy, allow_get_headers, due}

-- The times at which `AllowGetHeaders` said yes.
pub granted : PeerPolicy → List ℤ → List ℤ
granted p [] = []
granted p (now ∷ ns) =
    let (p', yes_or_no) = allow_get_headers p now in
    let rest = granted p' ns in if yes_or_no then now ∷ rest else rest

-- Each time lies at least `interval` after the one before it, the first after `last`.
abbrev pub Spaced : ℕ → ℤ → List ℤ → Type 0
Spaced interval last [] = Unit {0}
Spaced interval last (t ∷ ts) = (last +ℤ pos interval ≤ℤ t) × Spaced interval t ts

abbrev pub AllNonneg : List ℤ → Type 0
AllNonneg [] = Unit {0}
AllNonneg (t ∷ ts) = (pos 0 ≤ℤ t) × AllNonneg ts

due_no :
    (last : ℤ) (interval : ℕ) (now : ℤ)
    → pos 0 ≤ℤ last
    → due last interval now ≡ true
    → last +ℤ pos interval ≤ℤ now
unfolding due
due_no last interval now h d = ground (arith, +ℤ_parts last (pos interval), -ℤ_parts now last)

-- After a first grant, the times at which a header request is allowed lie at least 100 ms apart,
-- whatever the times of the calls, as long as none is negative.
pub granted-Spaced :
    (p : PeerPolicy) (ns : List ℤ)
    → pos 0 ≤ℤ p.m_last_getheaders_ms
    → AllNonneg ns
    → Spaced 100 p.m_last_getheaders_ms (granted p ns)
unfolding granted allow_get_headers
granted-Spaced p [] h hn = tt
granted-Spaced p (now ∷ ns) h hn = elim (Bool-cases (due p.m_last_getheaders_ms 100 now)) [
  | inl e ↦ rw e (
    due_no p.m_last_getheaders_ms 100 now h e,
    granted-Spaced (record p { m_last_getheaders_ms = now }) ns hn.0 hn.1,
  )
  | inr e ↦ rw e (granted-Spaced p ns h hn.1)
]
