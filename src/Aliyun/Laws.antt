-- ===== src/Aliyun/Laws.antt =====
-- The sum of the traffic in internal/aliyun/client.go.
use cdtalive.Prelude.{◌≡◌, refl, ◌∙◌, List, [], ◌∷◌, String}
use Prim.Native.String.{◌++◌ as str_append}
use cdtalive.Prelude.Floats.{FloatOps}
use cdtalive.Prelude.Results.{Result, ok, err, traverse, ◌>>=◌}
use cdtalive.Prelude.Text.{Text}
use cdtalive.Aliyun.{Decoder, number, sum_traffic}

module _ {F : Type 0} ⦃ops : FloatOps F⦄ where
  -- The sum of a list, from its head on.
  abbrev pub total_from : F → List F → F
  total_from bytes [] = bytes
  total_from bytes (value ∷ values) = total_from (ops.add bytes value) values

  -- Every value read first and then added up.
  abbrev pub summed : F → Result String (List F) → Result String F
  summed bytes (ok values) = ok (total_from bytes values)
  summed bytes (err e) = err (str_append "解析 CDT 流量失败: " e)

  -- The sum of the traffic is the sum of all values read in their order, and where one of them cannot
  -- be read the error of the first such one, with the words that the code puts in front.
  pub sum_traffic_lem :
      (decoder : Decoder F) (bytes : F) (details : List Text)
      → sum_traffic decoder bytes details ≡ summed bytes (traverse (number decoder) details)
  unfolding sum_traffic traverse
  sum_traffic_lem decoder bytes [] = refl
  sum_traffic_lem decoder bytes (detail ∷ details) =
      go (number decoder detail) (λ value. sum_traffic_lem decoder (ops.add bytes value) details)
    where
      go :
          (r : Result String F)
          → ((value : F)
              → sum_traffic decoder (ops.add bytes value) details
                ≡ summed (ops.add bytes value) (traverse (number decoder) details))
          → elim r as (λ _. Result String F) [
            | ok value ↦ sum_traffic decoder (ops.add bytes value) details
            | err e ↦ err (str_append "解析 CDT 流量失败: " e)
          ]
            ≡ summed bytes (r >>= λ y. traverse (number decoder) details >>= λ ys. ok (y ∷ ys))
      go (err e) h = refl
      go (ok value) h = h value ∙ (rest (traverse (number decoder) details))
        where
          rest :
              (r : Result String (List F))
              → summed (ops.add bytes value) r ≡ summed bytes (r >>= λ ys. ok (value ∷ ys))
          rest (ok values) = refl
          rest (err e) = refl
