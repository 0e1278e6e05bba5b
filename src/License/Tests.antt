-- ===== src/License/Tests.antt =====
-- The cases of license_test.go that are easily confused.
use mq_container.Base.{◌≡◌, refl, codes, has_prefix}
use mq_container.License.{file_for}

languages :
    (file_for (codes "zh_TW.UTF-8") ≡ codes "Chinese_TW.txt")
    × (file_for (codes "zh_CN") ≡ codes "Chinese.txt")
    × (file_for (codes "csb_PL") ≡ codes "English.txt")
    × (file_for (codes "cs_CZ") ≡ codes "Czech.txt")
    × (file_for (codes "kok_IN") ≡ codes "English.txt")
    × (file_for (codes "ko") ≡ codes "Korean.txt")
unfolding file_for has_prefix
languages = (refl, refl, refl, refl, refl, refl)
