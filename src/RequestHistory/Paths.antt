-- ===== src/RequestHistory/Paths.antt =====
-- `bounded_path`: how a long path is cut.
use tunnel_proxy.Common.{
  ℕ, zero, suc, ◌≤◌, ◌<◌, ◌≡◌, refl, sym, ◌↔◌, min, Bool, true, false, Bool-cases, ℕ_discrete, inl,
  inr, List, leb, length, take, length-take, take_of_length-le, arith,
}
use tunnel_proxy.RequestHistory.Model.{max_request_history_path_bytes, boundary_below, bounded_path}

module _ (is_char_boundary : List ℕ → ℕ → Bool) where
  -- The contract of `is_char_boundary`: both ends of a string are boundaries.
  pub record IsBoundaryTest : Type 0 where
    pub at_start : (s : List ℕ) → is_char_boundary s 0 ≡ true
    pub at_end : (s : List ℕ) → is_char_boundary s (length s) ≡ true

  -- A path and its flag: the longest prefix of at most 2 KiB that ends between two characters.
  pub record IsCut (path : List ℕ) (result : List ℕ × Bool) : Type 0 where
    pub bounded : length result.0 ≤ max_request_history_path_bytes
    pub prefix : result.0 ≡ take (length result.0) path
    pub between : is_char_boundary path (length result.0) ≡ true
    pub longest :
        (j : ℕ)
        → length result.0 < j
        → j ≤ min max_request_history_path_bytes (length path)
        → is_char_boundary path j ≡ false
    pub flagged : (result.1 ≡ true) ↔ (max_request_history_path_bytes < length path)

  boundary_below-lem :
      IsBoundaryTest
      → (path : List ℕ) (n : ℕ)
      → (boundary_below is_char_boundary path n ≤ n)
        × (is_char_boundary path (boundary_below is_char_boundary path n) ≡ true)
        × ((j : ℕ)
            → boundary_below is_char_boundary path n < j
            → j ≤ n
            → is_char_boundary path j ≡ false)
  unfolding boundary_below
  boundary_below-lem test path zero =
      (omega arith, test.at_start path, λ j h k. absurd (omega arith))
  boundary_below-lem test path (suc n) = elim (Bool-cases (is_char_boundary path (suc n))) [
    | inl here ↦ rw here (omega arith, here, λ j h k. absurd (omega arith))
    | inr inside ↦
        let (le, on, above) = boundary_below-lem test path n in
        rw inside (
          omega arith,
          on,
          λ j h k. elim (ℕ_discrete j (suc n)) [
            | yes top ↦ rw top inside
            | no below ↦ above j h (omega arith)
          ],
        )
  ]

  -- Given that both ends of a string are boundaries, a path of any length is cut to the longest
  -- prefix of at most 2 KiB that ends between two characters, and it is flagged exactly if it was
  -- longer than that. The loop ends without passing the start of the string.
  pub bounded_path-IsCut :
      (path : List ℕ) → IsBoundaryTest → IsCut path (bounded_path is_char_boundary path)
  unfolding bounded_path
  bounded_path-IsCut path test =
      elim (Bool-cases (leb (length path) max_request_history_path_bytes)) [
        | inl short ↦ rw short (record {
          bounded = ground arith;
          prefix = sym (take_of_length-le (length path) path (omega arith));
          between = test.at_end path;
          longest = λ j h k. absurd (omega arith);
          flagged = (λ e. cc e, λ long. absurd (ground arith));
        })
        | inr long ↦
            let (le, on, above) = boundary_below-lem test path max_request_history_path_bytes in
            let end = boundary_below is_char_boundary path max_request_history_path_bytes in
            let more : max_request_history_path_bytes < length path = ground arith in
            let size : length (take end path) ≡ end =
              omega (arith, length-take end path, le, more) in
            rw long (record {
              bounded = omega (arith, size, le);
              prefix = rw size refl;
              between = rw size on;
              longest = λ j h k. above j (omega (arith, size, h)) (omega (arith, k));
              flagged = (λ e. more, λ h. refl);
            })
      ]
