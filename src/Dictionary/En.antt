-- ===== src/Dictionary/En.antt =====
-- src/dictionary_en.cpp: the English word list, `langs::en`.
mod AtoB
mod Cee
mod DtoF
mod GtoL
mod MtoP
mod QtoR
mod Ess
mod TtoZ
use cscrypto.Base.{[], ◌∷◌, flatten}
use cscrypto.Dictionary.{Dictionary}
use AtoB.{a_words, b_words}
use Cee.{c_words_to_cl, c_words_from_co}
use DtoF.{d_words, e_words, f_words}
use GtoL.{g_words, h_words, i_words, j_words, k_words, l_words}
use MtoP.{m_words, n_words, o_words, p_words}
use QtoR.{q_words, r_words}
use Ess.{s_words_to_sn, s_words_from_so}
use TtoZ.{t_words, u_words, v_words, w_words, y_words, z_words}

-- The array `langs::en`.
unfoldable pub en : Dictionary
unfolding flatten a_words b_words c_words_to_cl c_words_from_co d_words e_words f_words g_words
    h_words i_words j_words k_words l_words m_words n_words o_words p_words q_words r_words
    s_words_to_sn s_words_from_so t_words u_words v_words w_words y_words z_words
en = flatten (
    a_words ∷ b_words ∷ c_words_to_cl ∷ c_words_from_co ∷ d_words ∷ e_words ∷ f_words ∷ g_words
    ∷ h_words ∷ i_words ∷ j_words ∷ k_words ∷ l_words ∷ m_words ∷ n_words ∷ o_words ∷ p_words
    ∷ q_words ∷ r_words ∷ s_words_to_sn ∷ s_words_from_so ∷ t_words ∷ u_words ∷ v_words ∷ w_words
    ∷ y_words ∷ z_words ∷ [])
