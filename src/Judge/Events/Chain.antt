-- ===== src/Judge/Events/Chain.antt =====
-- Frames in strictly rising order of their sequence numbers.
use runcodes.Prelude.{
  ℕ, ◌+◌, ◌≤◌, ◌<◌, ◌≡◌, ◌||◌, List, [], ◌∷◌, ◌++◌, length, keep, ltb, arith, Bool-cases, ◌⊎◌, inl,
  inr, ◌-◌,
}
use runcodes.Judge.Events.{Frame, size, evict_frames, max_frames, max_topic_bytes}

-- The numbers rise strictly, all above `lo`, none above `hi`.
abbrev pub Between : ℕ → ℕ → List Frame → Type 0
Between lo hi [] = lo ≤ hi
Between lo hi (f ∷ fs) = (lo < f.seq) × Between f.seq hi fs

pub Between-append :
    (lo mid hi : ℕ) (f : Frame) (fs : List Frame)
    → Between lo mid fs
    → mid < f.seq
    → f.seq ≤ hi
    → Between lo hi (fs ++ f ∷ [])
Between-append lo mid hi f [] b m h = (omega arith, h)
Between-append lo mid hi f (g ∷ fs) b m h = (b.0, Between-append g.seq mid hi f fs b.1 m h)

pub Between-lower :
    (lo lo' hi : ℕ) (fs : List Frame) → lo' ≤ lo → Between lo hi fs → Between lo' hi fs
Between-lower lo lo' hi [] h b = omega arith
Between-lower lo lo' hi (f ∷ fs) h b = (omega arith, b.1)

pub Between-raise :
    (lo hi hi' : ℕ) (fs : List Frame) → hi ≤ hi' → Between lo hi fs → Between lo hi' fs
Between-raise lo hi hi' [] h b = omega arith
Between-raise lo hi hi' (f ∷ fs) h b = (b.0, Between-raise f.seq hi hi' fs h b.1)

pub Between-le : (lo hi : ℕ) (fs : List Frame) → Between lo hi fs → lo ≤ hi
Between-le lo hi [] b = b
Between-le lo hi (f ∷ fs) b = omega (arith, Between-le f.seq hi fs b.1)

-- The frames after `from` start above it.
pub keep-Between :
    (from lo hi : ℕ) (fs : List Frame)
    → from ≤ hi
    → Between lo hi fs
    → Between from hi (keep (λ f. ltb from f.seq) fs)
keep-Between from lo hi [] h b = h
keep-Between from lo hi (f ∷ fs) h b = elim (Bool-cases (ltb from f.seq)) [
  | inl e ↦ rw e (ground arith, above f.seq hi fs (ground arith) b.1)
  | inr e ↦ rw e (keep-Between from f.seq hi fs h b.1)
]
  where
    above :
        (mid hi : ℕ) (fs : List Frame)
        → from < mid
        → Between mid hi fs
        → Between mid hi (keep (λ f. ltb from f.seq) fs)
    above mid hi [] h b = b
    above mid hi (g ∷ gs) h b = ground (arith, above g.seq hi gs)

-- The bytes that the frames hold.
unfoldable pub total : List Frame → ℕ
total [] = 0
total (f ∷ fs) = size f + total fs

pub total-append : (fs : List Frame) (f : Frame) → total (fs ++ f ∷ []) ≡ total fs + size f
unfolding total
total-append [] f = omega arith
total-append (g ∷ fs) f = omega (arith, total-append fs f)

pub evict_frames-total :
    (b : ℕ) (fs : List Frame) → b ≡ total fs → (evict_frames b fs).0 ≡ total (evict_frames b fs).1
unfolding evict_frames total
evict_frames-total b [] h = h
evict_frames-total b (f ∷ []) h = h
evict_frames-total b (f ∷ g ∷ fs) h =
    ground (arith, evict_frames-total (b - size f) (g ∷ fs) (omega arith))

-- One frame, or both bounds kept.
abbrev pub Bounded : ℕ → List Frame → Type 0
Bounded b fs = (length fs ≤ 1) ⊎ ((length fs ≤ max_frames) × (b ≤ max_topic_bytes))

pub evict_frames-Bounded :
    (b : ℕ) (fs : List Frame) → Bounded (evict_frames b fs).0 (evict_frames b fs).1
unfolding evict_frames
evict_frames-Bounded b [] = inl (omega arith)
evict_frames-Bounded b (f ∷ []) = inl (omega arith)
evict_frames-Bounded b (f ∷ g ∷ fs) = ground (arith, evict_frames-Bounded (b - size f) (g ∷ fs))

pub evict_frames-Between :
    (b lo hi : ℕ) (fs : List Frame) → Between lo hi fs → Between lo hi (evict_frames b fs).1
unfolding evict_frames
evict_frames-Between b lo hi [] h = h
evict_frames-Between b lo hi (f ∷ []) h = h
evict_frames-Between b lo hi (f ∷ g ∷ fs) h =
    elim (Bool-cases (ltb max_frames (length (f ∷ g ∷ fs)) || ltb max_topic_bytes b)) [
      | inl e ↦ rw e (evict_frames-Between (b - size f) lo hi (g ∷ fs) (omega arith, h.1.1))
      | inr e ↦ rw e h
    ]
