-- ===== src/Audio/Pcm.antt =====
-- What the audio service asks of a PCM device, as far as its lifetime is concerned
-- (audio/playbackworker.cpp, audio/recordingworker.cpp).
use kylin_kmre_manager.Base.{ℕ, ◌+◌, ◌≡◌, List, [], ◌∷◌, ◌++◌, arith}

pub data PcmCall : Type 0 where
  opens : PcmCall  -- a snd_pcm_open that succeeds
  closes : PcmCall
  drops : PcmCall
  prepares : PcmCall
  resumes : PcmCall
  writes : ℕ → PcmCall  -- snd_pcm_writei of so many frames

-- How often a device was opened, and how often a close was asked for.
unfoldable pub opened : List PcmCall → ℕ
opened [] = 0
opened (opens ∷ l) = 1 + opened l
opened (closes ∷ l) = opened l
opened (drops ∷ l) = opened l
opened (prepares ∷ l) = opened l
opened (resumes ∷ l) = opened l
opened (writes n ∷ l) = opened l

unfoldable pub closed : List PcmCall → ℕ
closed [] = 0
closed (opens ∷ l) = closed l
closed (closes ∷ l) = 1 + closed l
closed (drops ∷ l) = closed l
closed (prepares ∷ l) = closed l
closed (resumes ∷ l) = closed l
closed (writes n ∷ l) = closed l

pub opened-append : (k l : List PcmCall) → opened (k ++ l) ≡ opened k + opened l
unfolding opened
opened-append [] l = omega arith
opened-append (opens ∷ k) l = omega (arith, opened-append k l)
opened-append (closes ∷ k) l = omega (arith, opened-append k l)
opened-append (drops ∷ k) l = omega (arith, opened-append k l)
opened-append (prepares ∷ k) l = omega (arith, opened-append k l)
opened-append (resumes ∷ k) l = omega (arith, opened-append k l)
opened-append (writes n ∷ k) l = omega (arith, opened-append k l)

pub closed-append : (k l : List PcmCall) → closed (k ++ l) ≡ closed k + closed l
unfolding closed
closed-append [] l = omega arith
closed-append (opens ∷ k) l = omega (arith, closed-append k l)
closed-append (closes ∷ k) l = omega (arith, closed-append k l)
closed-append (drops ∷ k) l = omega (arith, closed-append k l)
closed-append (prepares ∷ k) l = omega (arith, closed-append k l)
closed-append (resumes ∷ k) l = omega (arith, closed-append k l)
closed-append (writes n ∷ k) l = omega (arith, closed-append k l)
