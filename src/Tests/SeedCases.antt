-- ===== src/Tests/SeedCases.antt =====
-- The directory of the path of a seed.
use mapfuzz.Base.{◌≡◌, refl, codes, []}
use mapfuzz.Targets.Seeds.{dirname}

corpus-dirname : dirname (codes "corpus/seed.gguf") ≡ codes "corpus"
unfolding dirname
corpus-dirname = refl

root-dirname : dirname (codes "//seed.gguf") ≡ codes "//"
unfolding dirname
root-dirname = refl

plain-dirname : dirname (codes "seed.gguf") ≡ []
unfolding dirname
plain-dirname = refl
