-- ===== src/Kuznyechik/Tables/T14.antt =====
-- internal/kuznyechik/tables.go: `t[14]`, 256 entries of two words.
use kubebao.Common.{ℕ, List, [], ◌∷◌}

unfoldable pub t_row14 : List (ℕ × ℕ)
t_row14 =
    (0xfb5673f66e45af0a, 0xb5642c66c8d51c47)
    ∷ (0x08d95b24e56852ca, 0x0a2f6bac5ee01eeb)
    ∷ (0xcbc56a2e75f680f3, 0x89869508cfd05878)
    ∷ (0x41b5ae0670cb4e17, 0xc067ebddce108371)
    ∷ (0x384a42fcfedb7d33, 0x36cdd2c259e55ad4)
    ∷ (0xb388b531afeb285f, 0xeff099e32339f2f8)
    ∷ (0x1f307492839bb1a3, 0x682036be40b7b805)
    ∷ (0x88d7a221ad273b37, 0xaa9a14fef7f83d43)
    ∷ (0x32347fd1b3a9da2a, 0xdf99d345f13da275)
    ∷ (0x7cc0130d492981c9, 0x6380d8bdc399a514)
    ∷ (0x5c22bc9d5b4a0a67, 0x4b3cb748789fdd3e)
    ∷ (0x02a76609a81af5d3, 0xe37b6a2bf638e64a)
    ∷ (0xecbf5c4008b64c63, 0xd76b7174d682baa9)
    ∷ (0x12d6d041a1ca5184, 0xf725bcb04a3bda5f)
    ∷ (0x7b588af3260ac6f7, 0x15d1533461cd3fef)
    ∷ (0x5f37e971a75d643c, 0x389be897f5bb4851)
    ∷ (0xc1bb5703388427ea, 0x60d2948f6708a0d9)
    ∷ (0x048dcc1293342965, 0x05f6d4562f700f94)
    ∷ (0x76be2e20045b26d0, 0x8ad4d93a6b415db5)
    ∷ (0x6cb1a54540f9259e, 0x77de0e267f9a9901)
    ∷ (0x26c8058b294d5718, 0xce31d188624e91f4)
    ∷ (0x0f41c2da8a4b15f4, 0x7c7ee025fcb48410)
    ∷ (0x0c549736765c7baf, 0x0fd9bffa7190117f)
    ∷ (0xe0ebcb767eea37cc, 0xd8b2ce8ea712abd6)
    ∷ (0xe6c1616d45c4eb7a, 0x3e3f70f37e5a4208)
    ∷ (0xd65278b55e77c483, 0x02ddc99d795f0637)
    ∷ (0x18a8ed6cecb8f69d, 0x1e71bd37e2e322fe)
    ∷ (0x8efd083a9609e781, 0x4c17aa832eb0d49d)
    ∷ (0x54fbe7b9be2258ad, 0x4113dce4267fc3d5)
    ∷ (0xe4660764edde1ea9, 0xdd441ad88862a442)
    ∷ (0xacb8c1a32c7099fc, 0x87d0af5d638e4afd)
    ∷ (0x698e5ab287c09773, 0xe2f4ef842bf6e5b0)
    ∷ (0xee183a49a0acb9b0, 0x34101b5f20ba5ce3)
    ∷ (0xd913ba6fd43cd177, 0x7ea329b885eb8227)
    ∷ (0xf702e4c01819d4a5, 0xbabd939cb9450d38)
    ∷ (0xb9f6881ce2998f46, 0x06a498648be10a59)
    ∷ (0x853106f28f76db10, 0x359f9ef0fd745f19)
    ∷ (0x1e824777d7962a2b, 0xf8fc034a3babcb20)
    ∷ (0x66cf98680d8b8287, 0x9e8a0fa1d74261a0)
    ∷ (0x309319d81bb32ff9, 0x3ce2b96e0705443f)
    ∷ (0xd5472d59a260aad8, 0x717a9642f47b9358)
    ∷ (0xa24b309cf2361780, 0x6b727a8ce426bdc8)
    ∷ (0xfcceea080166e834, 0xc335a7ef6a8186bc)
    ∷ (0x60e5327336a55e31, 0x7807b1dc0e0a887e)
    ∷ (0xffdbbfe4fd71866f, 0xb092f830e7a513d3)
    ∷ (0x6e16c34ce8e3d04d, 0x94a5640d89a27f4b)
    ∷ (0xea95f65b339890d5, 0x31e6cf090fca5377)
    ∷ (0x831bace9b45807a6, 0xd312208d243cb6c7)
    ∷ (0x154e49bfcee916ba, 0x81743739e86f40a4)
    ∷ (0xc00964e66c89bc62, 0xf00ea17b1c14d3fc)
    ∷ (0xdc2c45981305639a, 0xeb89c81ad187fe96)
    ∷ (0xb4102ccfc0c86f61, 0x99a1126a816d6803)
    ∷ (0xeb27c5be67950b5d, 0xa13afafd74d62052)
    ∷ (0xc8d03fc289e1eea8, 0xfa21cad742f4cd17)
    ∷ (0x84833517db7b4098, 0xa543ab0486682c3c)
    ∷ (0xe5d43481b9d38521, 0x4d982f2cf37ed767)
    ∷ (0xa774cf6b350fa56d, 0xfe589b2eb04ac179)
    ∷ (0x448a51f1b7f2fcfa, 0x554d0a7f9a7cffc0)
    ∷ (0xbae3ddf01e8ee11d, 0x7503c7bb06c59f36)
    ∷ (0x6242547a9ebfabe2, 0x9b7cdbf7f8326e34)
    ∷ (0xf23d1b37df206648, 0x2f97723eed297189)
    ∷ (0x53637e47d1011f93, 0x3742576d842b592e)
    ∷ (0x9a0172600ced6ab3, 0x5dbfa84ebdc3e71c)
    ∷ (0x1071b64809d0a457, 0x145ed69bbc033c15)
    ∷ (0x1d97129b2b814470, 0x8b5b5c95b68f5e4f)
    ∷ (0x0a7e3d2d4d72a719, 0xe9540187a8d8f8a1)
    ∷ (0xd36d8742994e766e, 0x97f7283f2d337a86)
    ∷ (0xfd7cd9ed556b73bc, 0x53e9921b119df599)
    ∷ (0x7381d1d7c362943d, 0x1ffe38983f2d2104)
    ∷ (0xf1284edb23370813, 0x5c302de1600de4e6)
    ∷ (0x4a79a0ce69b47286, 0xb9efdfae1dd408f5)
    ∷ (0xa15e65700e2179db, 0x18d52553690228a7)
    ∷ (0xaa926bb8175e454a, 0x615d1120bac6a323)
    ∷ (0x74194829ac41d303, 0x69afb3119d79bbff)
    ∷ (0x14fc7a5a9ae48d32, 0x11a802cd93733381)
    ∷ (0x39f87119aad6e6bb, 0xa611e73622f929f1)
    ∷ (0x9540b0ba86a67f47, 0x21c1486b4177630c)
    ∷ (0x5bba256334694d59, 0x3d6d3cc1dacb47c5)
    ∷ (0x565c81b01638ad7e, 0xa268b6cfd047259f)
    ∷ (0x8a70c428053dcee4, 0x49e17ed501c0db09)
    ∷ (0xdf391074ef120dc1, 0x982e97c55ca36bf9)
    ∷ (0xcdefc0354ed85c45, 0x6f0b2b751698b1a6)
    ∷ (0x51c4184e791bea40, 0xd4393d467213bf64)
    ∷ (0x341ed5ca8887069c, 0x39146d3828754bab)
    ∷ (0xf6b0d7254c144f2d, 0x2a61a668c2597e1d)
    ∷ (0x8de85dd66a1e89da, 0x3fb0f55ca39441f2)
    ∷ (0x6a9b0f5e7bd7f928, 0x9153b05ba6d270df)
    ∷ (0xf38f28d28b2dfdc0, 0xbf4b47ca963502ac)
    ∷ (0xf5a582c9b0032176, 0x59c6f9b74f7deb72)
    ∷ (0x11c385ad5ddd3fdf, 0x8482e36fc71f4f30)
    ∷ (0x9d99eb9e63ce2d8d, 0x2bee23c71f977de7)
    ∷ (0x75ab7bccf84c488b, 0xf97386e5e665c8da)
    ∷ (0x191ade89b8b56d15, 0x8ead88c399ff51db)
    ∷ (0x031555ecfc176e5b, 0x73a75fdf8d24956f)
    ∷ (0x7094843b3f75fa66, 0x6c596747b209b46b)
    ∷ (0x7233e232976f0fb5, 0x8f220d6c44315221)
    ∷ (0x3aed24f556c188e0, 0xd5b6b8e9afddbc9e)
    ∷ (0x8bc2f7cd5130556c, 0xd93d4b217adca82c)
    ∷ (0x33864c34e7a441a2, 0x4f45e6b18a21d150)
    ∷ (0xc623cefd57a760d4, 0x16831f06c55c3a22)
    ∷ (0x2fa36d4a98289e5a, 0x54c28fd047b2fc3a)
    ∷ (0x896591c4f92aa0bf, 0x3a46210a8ce44e66)
    ∷ (0xbe6e11e28dbac878, 0x70f513ed29b590a2)
    ∷ (0xcefa95d9b2cf321e, 0x1cac74aa9bbc24c9)
    ∷ (0xc484a8f4ffbd9507, 0xf5f8752d3364dc68)
    ∷ (0xfae440133a483482, 0x25b81992b3c96f62)
    ∷ (0x3b5f171002cc1368, 0x456a8d1dd4c1cfbb)
    ∷ (0xdd9e767d4708f812, 0x7b55fdeeaa9b8db3)
    ∷ (0x770c1dc55056bd58, 0x1a08ecce105d2e90)
    ∷ (0xc5369b11abb00e8f, 0x652440d94878af4d)
    ∷ (0x165b1c5332fe78e1, 0xf2d368e6654bd5cb)
    ∷ (0xa4619a87c918cb36, 0x8dffc4f13d6e5416)
    ∷ (0xad0af246787d0274, 0x170c9aa9189239d8)
    ∷ (0xd8a1898a80314aff, 0xee7f1c4cfef7f102)
    ∷ (0xb70579233cdf013a, 0xea064db50c49fd6c)
    ∷ (0x92d82944e9853879, 0x5790c3e2e323f9f7)
    ∷ (0x496cf52295a31cdd, 0xca48807190f09d9a)
    ∷ (0x6468fe61a5917754, 0x7df1658a217a87ea)
    ∷ (0x91cd7ca815925622, 0x24379c3d6e076c98)
    ∷ (0x9c2bd87b37c3b605, 0xbb321633648b0ec2)
    ∷ (0x01b233e5540d9b88, 0x90dc35f47b1c7325)
    ∷ (0xe83290529b826506, 0xd29da522f9f2b53d)
    ∷ (0xa0ec56955a2ce253, 0x880910a7121e5b82)
    ∷ (0xbb51ee154a837a95, 0xe5dff24f7dd9ec13)
    ∷ (0xb5a21f2a94c5f4e9, 0x097d279efa711b26)
    ∷ (0x2989c751a30642ec, 0xb24f31ad9efa15e4)
    ∷ (0xe3fe9e9a82fd5997, 0xab1591512a363eb9)
    ∷ (0x5a0816866064d6d1, 0xadb10935a1d734e0)
    ∷ (0x17e92fb666f3e369, 0x620f5d121e57a6ee)
    ∷ (0x63f0679fcab2306a, 0x0ba0ee03832e1d11)
    ∷ (0x25dd5067d55a3943, 0xbd968e57ef6a049b)
    ∷ (0x7d7220e81d241a41, 0xf35ced49b885d631)
    ∷ (0x20e2af9012638bae, 0x28bc6ff5bb06782a)
    ∷ (0x1364e3a4f5c7ca0c, 0x67f989443127a97a)
    ∷ (0x0ef3f13fde468e7c, 0xeca2d5d187a8f735)
    ∷ (0x9f3e8d97cbd4d85e, 0xc89549ece9af9bad)
    ∷ (0xe159f8932ae7ac44, 0x486efb7adc0ed8f3)
    ∷ (0x5549d45cea2fc325, 0xd1cfe9105d63b0f0)
    ∷ (0x8f4f3bdfc2047c09, 0xdccb9f7755aca7b8)
    ∷ (0xd1cae14b315483bd, 0x748c4214db0b9ccc)
    ∷ (0x40079de324c6d59f, 0x50bbde29b50cf054)
    ∷ (0x82a99f0ce0559c2e, 0x43ce15795f20c5e2)
    ∷ (0x52d14da2850c841b, 0xa79e6299ff372a0b)
    ∷ (0xb23a86d4fbe6b3d7, 0x7f2cac17582581dd)
    ∷ (0x591d436a9c73b88a, 0xde1656ea2cf3a18f)
    ∷ (0x3fd2db0291f83a0d, 0x409c594bfbb1c02f)
    ∷ (0xd4f51ebcf66d3150, 0xe1a6a3b68f67e07d)
    ∷ (0x79ffecfa8e103324, 0xf6aa391f97f5d9a5)
    ∷ (0xe773528811c970f2, 0xaee345070546312d)
    ∷ (0xefaa09acf4a12238, 0xa4cc2eab5ba62fc6)
    ∷ (0xca7759cb21fb1b7b, 0x195aa0fcb4cc2b5d)
    ∷ (0x479f041d4be592a1, 0x26ea55a017586aaf)
    ∷ (0xa5d3a9629d1550be, 0x1d23f10546722733)
    ∷ (0xafad944fd067f7a7, 0xf477f082eeaadf92)
    ∷ (0xa8350db1bf44b099, 0x82267b0b4cfe4569)
    ∷ (0x936a1aa1bd88a3f1, 0xc74cf616983f8ad2)
    ∷ (0xed0d6fa55cbbd7eb, 0x47b74480ad9ec98c)
    ∷ (0xc31c310a909ed239, 0x83a9fea491304693)
    ∷ (0x2a9c92bd5f112cb7, 0xc1e86e7213de808b)
    ∷ (0x9655e5567ab1111c, 0x526617b4cc53f663)
    ∷ (0x2cb638a6643ff001, 0x2765d00fca966955)
    ∷ (0x5d908f780f4791ef, 0xdbe082bc0383ae1b)
    ∷ (0xe24cad7fd6f0c21f, 0x3bc9a4a5512a4d9c)
    ∷ (0x7fd546e1b53eef92, 0x102787624ebd307b)
    ∷ (0x7e677504e133741a, 0x80fbb29635a1435e)
    ∷ (0x0000000000000000, 0x0000000000000000)
    ∷ (0x3e60e8e7c5f5a185, 0xd0406cbf80adb30a)
    ∷ (0xc791fd1803aafb5c, 0x865f2af2be404907)
    ∷ (0x053ffff7c739b2ed, 0x952ae1a2546c7cb1)
    ∷ (0x3cc78eee6def5456, 0x333b069476955540)
    ∷ (0x879660fb276c2ec3, 0xd6e4f4db0b4cb953)
    ∷ (0x677dab8d5986190f, 0x0e563a55ac5e1285)
    ∷ (0x9914278cf0fa04e8, 0x2e18f79130e77273)
    ∷ (0xab20585d4353dec2, 0xf18124d4c1dad006)
    ∷ (0xf9f115ffc65f5ad9, 0x561f464d3eedfa0d)
    ∷ (0xd2dfb4a7cd43ede6, 0x072b1dcb562f09a3)
    ∷ (0x062aaa1b3b2edcb6, 0xe68dbe7dd948e9de)
    ∷ (0xa9873e54eb492b11, 0x12fa4eff37e2364c)
    ∷ (0x1bbdb88010af98c6, 0x6dd6e2e86fc7b791)
    ∷ (0x48dec6c7c1ae8755, 0x5a94b585ebeceebf)
    ∷ (0x97e7d6b32ebc8a94, 0xc2ba2240b74f8546)
    ∷ (0xc2ae02efc49349b1, 0x1375cb50ea2c35b6)
    ∷ (0x8624531e7361b54b, 0x4638c12f7050ca76)
    ∷ (0x6157019662a8c5b9, 0xe8db84287516fb5b)
    ∷ (0x36b9b3c3209df34f, 0xda6f0713de4dade1)
    ∷ (0x57eeb255423536f6, 0x32b4833bab5b56ba)
    ∷ (0xf09a7d3e773a939b, 0xccec18151b1197c3)
    ∷ (0x2e115eafcc2505d2, 0xc41eba243cae8f1f)
    ∷ (0x7aeab91672075d7f, 0x850d66c01ad14cca)
    ∷ (0x3d75bd0b39e2cfde, 0xa3e733600d892665)
    ∷ (0x81bccae01c42f275, 0x30694aa6d204508d)
    ∷ (0x35ace62fdc8a9d14, 0xa9c858cc5369388e)
    ∷ (0xc9620c27ddec7520, 0x6afdff2339e8be32)
    ∷ (0x65dacd84f19cecdc, 0xed2d507e5a66f4cf)
    ∷ (0x784ddf1fda1da8ac, 0x66760cebece9aa80)
    ∷ (0xbcc977eb25a03dab, 0x938e79c6df8d76e8)
    ∷ (0x1c25217e7f8cdff8, 0x1b876961cd932d6a)
    ∷ (0x683c6957d3cd0cfb, 0x7228da7050ea9695)
    ∷ (0xcc5df3d01ad5c7cd, 0xffd71e816d84c283)
    ∷ (0xbfdc2207d9b753f0, 0xe029261952a9e387)
    ∷ (0x7126b7de6b7861ee, 0xfc8552b3c915c74e)
    ∷ (0xb844bbf9b69414ce, 0x9678ad90f0fd797c)
    ∷ (0xa6c6fc8e61023ee5, 0x6e84aedacb56b25c)
    ∷ (0x2245c999ba797e7d, 0xcbc705de4d3e9e60)
    ∷ (0x4de13930069735b8, 0xcfbe5427bf80920e)
    ∷ (0xb09de0dd53fc4604, 0x9c57c63cae1d6797)
    ∷ (0x907f4f4d419fcdaa, 0xb4eba9c9151b1fbd)
    ∷ (0x23f7fa7cee74e5f5, 0x5b1b302a3622ed45)
    ∷ (0x370b8026749068c7, 0x4ab332e7a551dec4)
    ∷ (0x6b293cbb2fda62a0, 0x018f85afddce03fa)
    ∷ (0x096b68c1b165c942, 0x9af35e5825fc6dce)
    ∷ (0x246f63828157a2cb, 0x2d4abba3947677be)
    ∷ (0x31212a3d4fbeb471, 0xac3e8c9a7c19371a)
    ∷ (0x4ef46cdcfa805be3, 0xbc190bf832a40761)
    ∷ (0x800ef905484f69fd, 0xa0b57f52a91823a8)
    ∷ (0x277a366e7d40cc90, 0x5eede47c1952e2d1)
    ∷ (0x58af708fc87e2302, 0x4eca631e57efd2aa)
    ∷ (0x21509c75466e1026, 0xb8605a01c01a0b0f)
    ∷ (0xcf48a63ce6c2a996, 0x8c70415ee0a057ec)
    ∷ (0x94f2835fd2abe4cf, 0xb11d7d9f3a6b1029)
    ∷ (0x2d040b4330326b89, 0xb7b9e5fbb18a1a70)
    ∷ (0xde8b2391bb1f9649, 0x08f2a23127bf18dc)
    ∷ (0xae1fa7aa846a6c2f, 0x64abc57695b6acb7)
    ∷ (0x8c5a6e333e131252, 0xaf6cc0a8d88832d7)
    ∷ (0x5e85da94f350ffb4, 0xa847dd638ea73b74)
    ∷ (0xa3f90379a63b8c08, 0xfbae4f789f3aceed)
    ∷ (0x2b2ea1580b1cb73f, 0x51345b8668c2f3ae)
    ∷ (0x9e8cbe729fd943d6, 0x58497c1892b3e888)
    ∷ (0xbd7b440e71ada623, 0x03524c32a49105cd)
    ∷ (0x1a0f8b6544a2034e, 0xfd0ad71c14dbc4b4)
    ∷ (0x98a61469a4f79f60, 0xbec4c2654bfb0156)
    ∷ (0xd7e04b500a7a5f0b, 0x9201fc6902437512)
    ∷ (0x4312c80fd8d1bbc4, 0x231c81f63828653b)
    ∷ (0xd078d2ae65591835, 0xe45077e0a017efe9)
    ∷ (0x4bcb932b3db9e90e, 0x2933ea5a66c87bd0)
    ∷ (0x283bf4b4f70bd964, 0x22930459e5e666c1)
    ∷ (0x9bb3418558e0f13b, 0xcd639dbac6df9439)
    ∷ (0x4c530ad5529aae30, 0x5f6261d3c49ce12b)
    ∷ (0x6fa4f0a9bcee4bc5, 0x047951f9f2be0c6e)
    ∷ (0x4f465f39ae8dc06b, 0x2cc53e0c49b87444)
    ∷ (0x0bcc0ec8197f3c91, 0x79883473d3c48b84)
    ∷ (0x42a0fbea8cdc204c, 0xb3c0b4024334161e)
    ∷ (0xb6b74ac668d29ab2, 0x7ada784177558e49)
    ∷ (0xf417b12ce40ebafe, 0xc91acc4334619857)
    ∷ (0xfe698c01a97c1de7, 0x204ecdc49cb960f6)
    ∷ (0x0de6a4d32251e027, 0x9f058a0e0a8c625a)
    ∷ (0xb12fd33807f1dd8c, 0x0c8bf3c8d50114b2)
    ∷ (0x079899fe6f23473e, 0x76518b89a2549afb)
    ∷ (0x462d37f81fe80929, 0xb63660546c44198a)
    ∷ (0x45386214e3ff6772, 0xc5913f8be1608ce5)
    ∷ (0xda06ef83282bbf2c, 0x0d04766708cf1748)
    ∷ (0xdbb4dc667c2624a4, 0x9dd8439373d3646d)
    ∷ (0xe980a3b7cf8ffe8e, 0x424190d682eec618)
    ∷ (0xf843261a9252c151, 0xc6c373b945f18928)
    ∷ (0x50762bab2d1671c8, 0x44e508b2090fcc41)
    ∷ (0x6d0396a014f4be16, 0xe7023bd20486ea24)
    ∷ []
