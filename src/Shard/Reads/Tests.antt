-- ===== src/Shard/Reads/Tests.antt =====
-- Pages of three results.
use semadb.Base.{List, [], refl, ℕ, ◌∷◌, ◌≡◌}
use semadb.Shard.Reads.{page}

abbrev three : List ℕ
three = 7 ∷ 8 ∷ 9 ∷ []

second_page : page 1 1 three ≡ 8 ∷ []
unfolding page
second_page = refl
